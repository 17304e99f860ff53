-- ===== src/Api.antt =====
-- The messages of src/api/api.h and the dispatch of src/util/switch.h, which calls the function for
-- the type of a message. The type of what a function is called with follows from its tag.
pub mod Codec
pub mod Dispatch
pub mod Examples
pub mod Failures
use zip_log_ae.Network.Transfer.{skip}
use zip_log_ae.Network.Handshake.{put_word, word, field}
use zip_log_ae.Base.{
  ℕ, zero, suc, ◌+◌, ◌*◌, ◌%◌, ◌^◌, ◌≤◌, ◌<◌, ◌≡◌, true, false, List, [], ◌∷◌, ◌++◌, ◌==◌, length,
  take,
}

-- The types of messages.
pub data Kind : Type 0 where
  order_intro client_intro storage_intro subscriber_intro : Kind
  order_finished client_finished storage_finished subscriber_finished : Kind
  client_storage_info client_new_epoch client_insert_ack client_heartbeat : Kind
  order_client_rate order_client_freeze order_client_cut order_client_data : Kind
  storage_insert storage_slots storage_client_freeze storage_client_cut : Kind
  storage_client_patch storage_client_finalize : Kind
  subscriber_log_entry subscriber_storage_info : Kind

-- `message_types`, and the member `tag` of each type.
abbrev pub tag : Kind → ℕ
tag order_intro = 2 ^ 1
tag client_intro = 2 ^ 2
tag storage_intro = 2 ^ 3
tag subscriber_intro = 2 ^ 4
tag order_finished = 2 ^ 5
tag client_finished = 2 ^ 6
tag storage_finished = 2 ^ 7
tag subscriber_finished = 2 ^ 8
tag client_storage_info = 2 ^ 9
tag client_new_epoch = 2 ^ 10
tag client_insert_ack = 2 ^ 11
tag client_heartbeat = 2 ^ 30
tag order_client_rate = 2 ^ 12
tag order_client_freeze = 2 ^ 13
tag order_client_cut = 2 ^ 14
tag order_client_data = 2 ^ 15
tag storage_insert = 2 ^ 16
tag storage_slots = 2 ^ 17
tag storage_client_freeze = 2 ^ 18
tag storage_client_cut = 2 ^ 19
tag storage_client_patch = 2 ^ 20
tag storage_client_finalize = 2 ^ 21
tag subscriber_log_entry = 2 ^ 22
tag subscriber_storage_info = 2 ^ 23

-- The members of the packed structs behind the tag, as their numbers of bytes.
abbrev pub widths : Kind → List ℕ
widths order_intro = []
widths client_intro = 8 ∷ 8 ∷ 8 ∷ []
widths storage_intro = 8 ∷ 8 ∷ 8 ∷ 2 ∷ []
widths subscriber_intro = 8 ∷ 8 ∷ []
widths order_finished = []
widths client_finished = 8 ∷ []
widths storage_finished = 8 ∷ 8 ∷ []
widths subscriber_finished = 8 ∷ []
widths client_storage_info = 8 ∷ []
widths client_new_epoch = 8 ∷ 8 ∷ []
widths client_insert_ack = 8 ∷ 8 ∷ []
widths client_heartbeat = 8 ∷ []
widths order_client_rate = 8 ∷ 8 ∷ []
widths order_client_freeze = 8 ∷ []
widths order_client_cut = 8 ∷ 8 ∷ 8 ∷ 8 ∷ []
widths order_client_data = 8 ∷ 8 ∷ 8 ∷ 8 ∷ 8 ∷ []
widths storage_insert = 8 ∷ 8 ∷ 8 ∷ []
widths storage_slots = 8 ∷ 8 ∷ []
widths storage_client_freeze = 8 ∷ []
widths storage_client_cut = 8 ∷ 8 ∷ []
widths storage_client_patch = 8 ∷ 8 ∷ 8 ∷ []
widths storage_client_finalize = 8 ∷ []
widths subscriber_log_entry = 8 ∷ 8 ∷ 8 ∷ 8 ∷ 8 ∷ 8 ∷ []
widths subscriber_storage_info = 8 ∷ []

-- The size of an element of the array at the end, or 0; the last member counts the elements.
abbrev pub element_size : Kind → ℕ
element_size storage_insert = 1
element_size order_client_data = 1
element_size storage_slots = 16
element_size storage_client_patch = 1
element_size subscriber_log_entry = 1
element_size client_storage_info = 16
element_size subscriber_storage_info = 16
element_size _ = 0

-- The values of members with these numbers of bytes.
abbrev pub Fields : List ℕ → Type 0
Fields [] = Unit
Fields (w ∷ ws) = ℕ × Fields ws

-- A message of a type: its members, and the bytes of the array at its end.
abbrev pub Message : Kind → Type 0
Message k = Fields (widths k) × List ℕ

abbrev pub sum_widths : List ℕ → ℕ
sum_widths [] = 0
sum_widths (w ∷ ws) = w + sum_widths ws

abbrev pub last_field : (ws : List ℕ) → Fields ws → ℕ
last_field [] fs = 0
last_field (w ∷ []) (f, fs) = f
last_field (w ∷ v ∷ ws) (f, fs) = last_field (v ∷ ws) fs

-- `sizeof`, and `message::length` in 64 bits.
abbrev pub size_of : Kind → ℕ
size_of k = 8 + sum_widths (widths k)

unfoldable pub length_of : (k : Kind) → Message k → ℕ
length_of k (fs, data_) = (size_of k + element_size k * last_field (widths k) fs) % 2 ^ 64

-- What stands in a buffer that holds a message.
unfoldable pub put_fields : (ws : List ℕ) → Fields ws → List ℕ
put_fields [] fs = []
put_fields (w ∷ ws) (f, fs) = put_word w f ++ put_fields ws fs

unfoldable pub to_bytes : (k : Kind) → Message k → List ℕ
to_bytes k (fs, data_) = put_word 8 (tag k) ++ (put_fields (widths k) fs ++ data_)

-- A buffer seen as a message of a type: `static_cast<T*>(buffer)`.
unfoldable pub get_fields : (ws : List ℕ) → List ℕ → Fields ws
get_fields [] p = tt
get_fields (w ∷ ws) p = (word (take w p), get_fields ws (skip w p))

unfoldable pub cast : (k : Kind) → List ℕ → Message k
cast k p = (get_fields (widths k) (skip 8 p), skip (size_of k) p)

-- A lambda, with the type of the message that it takes.
pub record Handler (R : Type 0) : Type 0 where
  pub kind : Kind
  pub call : Message kind → R

-- What a dispatch comes to: a call, a failing assertion, or the warning with the tag.
pub data Outcome (R : Type 0) : Type 0 where
  called : R → Outcome R
  aborted : Outcome R
  warned : ℕ → Outcome R

-- `apply`
unfoldable pub apply : {R : Type 0} → List (Handler R) → List ℕ → ℕ → Outcome R
apply [] buffer received = warned (field 0 8 buffer)
apply (h ∷ hs) buffer received = elim (field 0 8 buffer == tag h.kind) [
  | false ↦ apply hs buffer received
  | true ↦ elim (received == length_of h.kind (cast h.kind buffer)) [
    | false ↦ aborted
    | true ↦ called (h.call (cast h.kind buffer))
  ]
]
