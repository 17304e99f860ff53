-- ===== src/Api/Codec.antt =====
-- The messages of src/api/api.h as bytes.
use zip_log_ae.Network.Transfer.{skip}
use zip_log_ae.Network.Handshake.{put_word, word, field}
use zip_log_ae.Network.Handshake.Arrays.{
  length-put_word, take-append, skip-append, field-first, word-put_word,
}
use zip_log_ae.Api.{
  Kind, tag, widths, element_size, Fields, Message, sum_widths, last_field, size_of, length_of,
  put_fields, to_bytes, get_fields, cast, order_intro, client_intro, storage_intro,
  subscriber_intro, order_finished, client_finished, storage_finished, subscriber_finished,
  client_storage_info, client_new_epoch, client_insert_ack, client_heartbeat, order_client_rate,
  order_client_freeze, order_client_cut, order_client_data, storage_insert, storage_slots,
  storage_client_freeze, storage_client_cut, storage_client_patch, storage_client_finalize,
  subscriber_log_entry, subscriber_storage_info,
}
use zip_log_ae.Base.{
  ℕ, ◌+◌, ◌*◌, ◌^◌, ◌<◌, ◌≡◌, refl, sym, ap, ◌∙◌, ◌-◌, append_assoc, Option, none, some, List, [],
  ◌∷◌, ◌++◌, ◌==◌, if◌then◌else◌, length, take, arith, length-append,
}

-- Every member fits its bytes.
abbrev pub Fits : (ws : List ℕ) → Fields ws → Type 0
Fits [] fs = Unit
Fits (w ∷ ws) (f, fs) = (f < 256 ^ w) × Fits ws fs

-- A message whose array has as many elements as its last member says, in fewer than 2 ^ 64 bytes.
abbrev pub IsMessage : (k : Kind) → Message k → Type 0
IsMessage k (fs, data_) =
    Fits (widths k) fs
    × (length data_ ≡ element_size k * last_field (widths k) fs)
    × (size_of k + length data_ < 2 ^ 64)

pub length-put_fields : (ws : List ℕ) (fs : Fields ws) → length (put_fields ws fs) ≡ sum_widths ws
unfolding put_fields
length-put_fields [] fs = refl
length-put_fields (w ∷ ws) (f, fs) = omega (
  arith,
  length-append (put_word w f) (put_fields ws fs),
  length-put_word w f,
  length-put_fields ws fs,
)

pub get-put_fields :
    (ws : List ℕ) (fs : Fields ws) (rest : List ℕ)
    → Fits ws fs
    → get_fields ws (put_fields ws fs ++ rest) ≡ fs
unfolding get_fields put_fields
get-put_fields [] fs rest h = refl
get-put_fields (w ∷ ws) (f, fs) rest h =
    let tail = put_fields ws fs ++ rest in
    let n = length-put_word w f in
    let first : word (take w (put_word w f ++ tail)) ≡ f =
      ap word (take-append w (put_word w f) tail n) ∙ word-put_word w f h.0 in
    let others : get_fields ws (skip w (put_word w f ++ tail)) ≡ fs =
      ap (get_fields ws) (
        skip-append w w (put_word w f) tail n (omega arith)
        ∙ ap (λ i. skip i tail) {x = w - w} {y = 0} (omega arith))
      ∙ get-put_fields ws fs rest h.1 in
    rw (append_assoc (put_word w f) (put_fields ws fs) rest) (pair first others)
  where
    pair :
        {A : Type 0} {B : Type 0} {a a' : A} {b b' : B}
        → a ≡ a'
        → b ≡ b'
        → ◌≡◌ {A = A × B} (a, b) (a', b')
    pair p q = cc

pub tag-bound : (k : Kind) → tag k < 256 ^ 8
tag-bound order_intro = omega arith
tag-bound client_intro = omega arith
tag-bound storage_intro = omega arith
tag-bound subscriber_intro = omega arith
tag-bound order_finished = omega arith
tag-bound client_finished = omega arith
tag-bound storage_finished = omega arith
tag-bound subscriber_finished = omega arith
tag-bound client_storage_info = omega arith
tag-bound client_new_epoch = omega arith
tag-bound client_insert_ack = omega arith
tag-bound client_heartbeat = omega arith
tag-bound order_client_rate = omega arith
tag-bound order_client_freeze = omega arith
tag-bound order_client_cut = omega arith
tag-bound order_client_data = omega arith
tag-bound storage_insert = omega arith
tag-bound storage_slots = omega arith
tag-bound storage_client_freeze = omega arith
tag-bound storage_client_cut = omega arith
tag-bound storage_client_patch = omega arith
tag-bound storage_client_finalize = omega arith
tag-bound subscriber_log_entry = omega arith
tag-bound subscriber_storage_info = omega arith

-- The type of a tag.
abbrev kind_of : ℕ → Option Kind
kind_of t =
    if t == 2 ^ 1
    then some order_intro
    else if t == 2 ^ 2
    then some client_intro
    else if t == 2 ^ 3
    then some storage_intro
    else if t == 2 ^ 4
    then some subscriber_intro
    else if t == 2 ^ 5
    then some order_finished
    else if t == 2 ^ 6
    then some client_finished
    else if t == 2 ^ 7
    then some storage_finished
    else if t == 2 ^ 8
    then some subscriber_finished
    else if t == 2 ^ 9
    then some client_storage_info
    else if t == 2 ^ 10
    then some client_new_epoch
    else if t == 2 ^ 11
    then some client_insert_ack
    else if t == 2 ^ 30
    then some client_heartbeat
    else if t == 2 ^ 12
    then some order_client_rate
    else if t == 2 ^ 13
    then some order_client_freeze
    else if t == 2 ^ 14
    then some order_client_cut
    else if t == 2 ^ 15
    then some order_client_data
    else if t == 2 ^ 16
    then some storage_insert
    else if t == 2 ^ 17
    then some storage_slots
    else if t == 2 ^ 18
    then some storage_client_freeze
    else if t == 2 ^ 19
    then some storage_client_cut
    else if t == 2 ^ 20
    then some storage_client_patch
    else if t == 2 ^ 21
    then some storage_client_finalize
    else if t == 2 ^ 22
    then some subscriber_log_entry
    else if t == 2 ^ 23
    then some subscriber_storage_info
    else none

kind_of-tag : (k : Kind) → kind_of (tag k) ≡ some k
kind_of-tag order_intro = refl
kind_of-tag client_intro = refl
kind_of-tag storage_intro = refl
kind_of-tag subscriber_intro = refl
kind_of-tag order_finished = refl
kind_of-tag client_finished = refl
kind_of-tag storage_finished = refl
kind_of-tag subscriber_finished = refl
kind_of-tag client_storage_info = refl
kind_of-tag client_new_epoch = refl
kind_of-tag client_insert_ack = refl
kind_of-tag client_heartbeat = refl
kind_of-tag order_client_rate = refl
kind_of-tag order_client_freeze = refl
kind_of-tag order_client_cut = refl
kind_of-tag order_client_data = refl
kind_of-tag storage_insert = refl
kind_of-tag storage_slots = refl
kind_of-tag storage_client_freeze = refl
kind_of-tag storage_client_cut = refl
kind_of-tag storage_client_patch = refl
kind_of-tag storage_client_finalize = refl
kind_of-tag subscriber_log_entry = refl
kind_of-tag subscriber_storage_info = refl

-- No two types have the same tag.
pub tag-injective : (k j : Kind) → tag k ≡ tag j → k ≡ j
tag-injective k j e =
    let same : some k ≡ some j = sym (kind_of-tag k) ∙ (ap kind_of e ∙ kind_of-tag j) in cc

-- A message read from the bytes that it was written to, and its length.
pub cast-to_bytes : (k : Kind) (m : Message k) → IsMessage k m → cast k (to_bytes k m) ≡ m
unfolding cast to_bytes
cast-to_bytes k (fs, data_) (fit, counted, small) =
    let body = put_fields (widths k) fs ++ data_ in
    let n = length-put_word 8 (tag k) in
    let past : skip 8 (put_word 8 (tag k) ++ body) ≡ body =
      skip-append 8 8 (put_word 8 (tag k)) body n (omega arith) in
    let whole : skip (size_of k) (put_word 8 (tag k) ++ body) ≡ data_ =
      skip-append (size_of k) 8 (put_word 8 (tag k)) body n (omega arith)
      ∙ (ap (λ i. skip i body) {x = size_of k - 8} {y = sum_widths (widths k)} (omega arith)
          ∙ (skip-append (sum_widths (widths k)) (sum_widths (widths k)) (put_fields (widths k) fs)
                data_ (length-put_fields (widths k) fs) (omega arith)
              ∙ ap (λ i. skip i data_) {x = sum_widths (widths k) - sum_widths (widths k)} {y = 0}
                  (omega arith))) in
    let fields = get-put_fields (widths k) fs data_ fit in rw (past, whole, fields) refl

pub length-to_bytes :
    (k : Kind) (m : Message k) → IsMessage k m → length (to_bytes k m) ≡ length_of k m
unfolding to_bytes length_of
length-to_bytes k (fs, data_) (fit, counted, small) = omega (
  arith,
  length-append (put_word 8 (tag k)) (put_fields (widths k) fs ++ data_),
  length-append (put_fields (widths k) fs) data_,
  length-put_word 8 (tag k),
  length-put_fields (widths k) fs,
  counted,
  small,
)

pub tag-to_bytes : (k : Kind) (m : Message k) → field 0 8 (to_bytes k m) ≡ tag k
unfolding to_bytes
tag-to_bytes k (fs, data_) = field-first 8 (tag k) (put_fields (widths k) fs ++ data_) (tag-bound k)
