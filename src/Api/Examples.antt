-- ===== src/Api/Examples.antt =====
-- A dispatch with functions for two types of messages.
use zip_log_ae.Api.{
  client_intro, storage_insert, order_finished, Message, to_bytes, Handler, called, aborted, warned,
  apply, length_of, cast, put_fields, get_fields,
}
use zip_log_ae.Network.Handshake.{put_word, word, field}
use zip_log_ae.Api.Dispatch.{Answers, apply-Answers}
use zip_log_ae.Api.Failures.{
  qp_fatal, failures, Report, failed, noise, report_event, AllAnswered, failures-AllAnswered,
}
use zip_log_ae.Base.{none, some, map, ℕ, ◌+◌, ◌≡◌, refl, List, [], ◌∷◌, length, arith}

abbrev on_intro : Handler ℕ
on_intro = record { kind = client_intro; call = λ m. m.0.1.0 }

abbrev on_insert : Handler ℕ
on_insert = record { kind = storage_insert; call = λ m. m.0.0 + 100 }

abbrev handlers : List (Handler ℕ)
handlers = on_intro ∷ on_insert ∷ []

abbrev insertion : Message storage_insert
insertion = ((7, (2, (3, tt))), 10 ∷ 20 ∷ 30 ∷ [])

abbrev insertion_bytes : List ℕ
insertion_bytes = to_bytes storage_insert insertion

apply-Answers_example : Answers storage_insert insertion handlers (
    apply handlers (to_bytes storage_insert insertion) (length (to_bytes storage_insert insertion)))
apply-Answers_example =
    apply-Answers storage_insert insertion handlers
      ((omega arith, (omega arith, (omega arith, tt))), omega arith, omega arith)

inserted : apply handlers insertion_bytes 35 ≡ called 107
unfolding apply field word put_word to_bytes put_fields get_fields cast length_of
inserted = refl

truncated : apply handlers insertion_bytes 34 ≡ aborted
unfolding apply field word put_word to_bytes put_fields get_fields cast length_of
truncated = refl

unheard_of : apply handlers (to_bytes order_finished (tt, [])) 8 ≡ warned 32
unfolding apply field word put_word to_bytes put_fields get_fields cast length_of
unheard_of = refl

abbrev reports : List Report
reports =
    noise none
    ∷ failed (record { event_type = qp_fatal; kind = storage_insert; message = insertion })
    ∷ noise (some (7 ∷ []))
    ∷ []

failures-AllAnswered_example :
    AllAnswered handlers reports (failures handlers 3 (map report_event reports))
failures-AllAnswered_example = failures-AllAnswered handlers reports (
  tt,
  ((tt, ((omega arith, (omega arith, (omega arith, tt))), omega arith, omega arith)), (tt, tt)),
)
