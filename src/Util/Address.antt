-- ===== src/Util/Address.antt =====
-- `zip::util::split_address` of src/util/util.cpp, on texts as lists of character codes.
use native.Mathlib.Nat.{pow-suc}
use zip_log_ae.Base.{
  ℕ, zero, suc, ◌+◌, ◌-◌, ◌*◌, ◌/◌, ◌%◌, ◌^◌, ◌<◌, ◌≡◌, refl, ◌∙◌, ap, Bool, true, false, ◌&&◌,
  ◌||◌, Option, none, some, List, [], ◌∷◌, ◌++◌, inl, inr, Bool-cases, if◌then◌else◌, ltb, leb,
  ◌==◌, All, All-append, arith,
}

abbrev pub default_port : ℕ
default_port = 6666

-- `std::stoi` skips white space, reads a sign and then digits; it throws when there is no digit or
-- when the number is no `int`.
abbrev is_space : ℕ → Bool
is_space c = (c == 32) || (leb 9 c && leb c 13)

abbrev is_digit : ℕ → Bool
is_digit c = leb 48 c && leb c 57

unfoldable pub read_digits : ℕ → List ℕ → ℕ
read_digits n [] = n
read_digits n (c ∷ cs) =
    let rest = read_digits (n * 10 + (c - 48)) cs in if is_digit c then rest else n

abbrev pub has_digit : List ℕ → Bool
has_digit [] = false
has_digit (c ∷ cs) = is_digit c

-- The number as a `uint16_t`.
abbrev pub positive : List ℕ → Option ℕ
positive cs =
    if has_digit cs
    then (if ltb (read_digits 0 cs) (2 ^ 31) then some (read_digits 0 cs % 2 ^ 16) else none)
    else none

abbrev pub negative : List ℕ → Option ℕ
negative cs =
    if has_digit cs
    then (if leb (read_digits 0 cs) (2 ^ 31)
        then some ((2 ^ 16 - read_digits 0 cs % 2 ^ 16) % 2 ^ 16)
        else none)
    else none

unfoldable pub stoi : List ℕ → Option ℕ
stoi [] = none
stoi (c ∷ cs) =
    let rest = stoi cs in
    if is_space c
    then rest
    else if c == 43
    then positive cs
    else if c == 45
    then negative cs
    else positive (c ∷ cs)

-- The text before the first colon, and the text behind it if there is one.
unfoldable pub at_colon : List ℕ → List ℕ × Option (List ℕ)
at_colon [] = ([], none)
at_colon (c ∷ cs) =
    let (before, behind) = at_colon cs in if c == 58 then ([], some cs) else (c ∷ before, behind)

abbrev pub with_port : List ℕ → Option ℕ → Option (List ℕ × ℕ)
with_port ip none = none
with_port ip (some port) = some (ip, port)

abbrev pub with_parts : List ℕ × Option (List ℕ) → Option (List ℕ × ℕ)
with_parts (before, none) = some (before, default_port)
with_parts (before, some text) = with_port before (stoi text)

-- `none` is an exception.
unfoldable pub split_address : List ℕ → Option (List ℕ × ℕ)
split_address address = with_parts (at_colon address)

-- A number in decimal, of at most so many digits.
abbrev pub to_digits : ℕ → ℕ → List ℕ
to_digits zero n = []
to_digits (suc fuel) n =
    let more = to_digits fuel (n / 10) ++ (48 + n % 10) ∷ [] in
    if ltb n 10 then (48 + n) ∷ [] else more

abbrev IsDigit : ℕ → Type 0
IsDigit c = is_digit c ≡ true

add-IsDigit : (d : ℕ) → d < 10 → IsDigit (48 + d)
add-IsDigit d h = ground arith

to_digits-IsDigit : (fuel n : ℕ) → All IsDigit (to_digits fuel n)
to_digits-IsDigit zero n = tt
to_digits-IsDigit (suc fuel) n = elim (Bool-cases (ltb n 10)) [
  | inl e ↦ rw e (add-IsDigit n (ground (arith, e)), tt)
  | inr e ↦ rw e (
      All-append IsDigit (to_digits fuel (n / 10)) ((48 + n % 10) ∷ [])
        (to_digits-IsDigit fuel (n / 10)) (add-IsDigit (n % 10) (omega arith), tt))
]

read_digits-append :
    (n : ℕ) (xs ys : List ℕ)
    → All IsDigit xs
    → read_digits n (xs ++ ys) ≡ read_digits (read_digits n xs) ys
unfolding read_digits
read_digits-append n [] ys h = refl
read_digits-append n (x ∷ xs) ys h =
    rw (read_digits, h.0) (read_digits-append (n * 10 + (x - 48)) xs ys h.1)

fewer : (fuel n : ℕ) → n < 10 ^ suc fuel → n / 10 < 10 ^ fuel
fewer fuel n h = let e : 10 ^ suc fuel ≡ 10 ^ fuel * 10 = pow-suc _ _ in omega (arith, rw e at h)

read_one : (n d : ℕ) → d < 10 → read_digits n ((48 + d) ∷ []) ≡ n * 10 + d
unfolding read_digits
read_one n d h = rw (read_digits, add-IsDigit d h) (omega arith)

read_digits-to_digits : (fuel n : ℕ) → n < 10 ^ fuel → read_digits 0 (to_digits fuel n) ≡ n
unfolding read_digits
read_digits-to_digits zero n h = omega (arith, h)
read_digits-to_digits (suc fuel) n h = elim (Bool-cases (ltb n 10)) [
  | inl e ↦ rw e (read_one 0 n (ground (arith, e)) ∙ omega arith)
  | inr e ↦
      rw
        (
          e,
          read_digits-append 0 (to_digits fuel (n / 10)) ((48 + n % 10) ∷ [])
              (to_digits-IsDigit fuel (n / 10)),
          read_digits-to_digits fuel (n / 10) (fewer fuel n h),
          read_one (n / 10) (n % 10) (omega arith),
        )
        (omega arith)
]

has_digit-append :
    (d : ℕ) (xs : List ℕ) → IsDigit d → All IsDigit xs → has_digit (xs ++ d ∷ []) ≡ true
has_digit-append d [] h all = h
has_digit-append d (x ∷ xs) h all = all.0

has_digit-to_digits : (fuel n : ℕ) → has_digit (to_digits (suc fuel) n) ≡ true
has_digit-to_digits fuel n = elim (Bool-cases (ltb n 10)) [
  | inl e ↦ rw e (add-IsDigit n (ground (arith, e)))
  | inr e ↦ rw e (
      has_digit-append (48 + n % 10) (to_digits fuel (n / 10)) (add-IsDigit (n % 10) (omega arith))
        (to_digits-IsDigit fuel (n / 10)))
]

stoi-digits : (cs : List ℕ) → has_digit cs ≡ true → stoi cs ≡ positive cs
unfolding stoi
stoi-digits [] h = cc
stoi-digits (c ∷ cs) h =
    let text : is_space c ≡ false = ground (arith, h) in
    let plus : (c == 43) ≡ false = ground (arith, h) in
    let minus : (c == 45) ≡ false = ground (arith, h) in rw (stoi, text, plus, minus) refl

stoi-to_digits : (n : ℕ) → n < 2 ^ 16 → stoi (to_digits 5 n) ≡ some n
stoi-to_digits n h =
    let some_digit = has_digit-to_digits 4 n in
    let read : read_digits 0 (to_digits 5 n) ≡ n = read_digits-to_digits 5 n (omega arith) in
    let small : ltb n (2 ^ 31) ≡ true = ground arith in
    let word : n % 2 ^ 16 ≡ n = omega arith in
    stoi-digits (to_digits 5 n) some_digit ∙ rw (some_digit, read, small, word) refl

abbrev pub IsPlain : ℕ → Type 0
IsPlain c = (c == 58) ≡ false

at_colon-joined : (ip text : List ℕ) → All IsPlain ip → at_colon (ip ++ 58 ∷ text) ≡ (ip, some text)
unfolding at_colon
at_colon-joined [] text h = refl
at_colon-joined (c ∷ cs) text h = rw (at_colon, at_colon-joined cs text h.1, h.0) refl

at_colon-plain : (ip : List ℕ) → All IsPlain ip → at_colon ip ≡ (ip, none)
unfolding at_colon
at_colon-plain [] h = refl
at_colon-plain (c ∷ cs) h = rw (at_colon, at_colon-plain cs h.1, h.0) refl

-- For a host without a colon and a port below 2 ^ 16, the host, a colon and the port in decimal
-- are split into the host and the port, and the host alone is split into itself and the default
-- port.
pub split_address-joined :
    (ip : List ℕ) (port : ℕ)
    → All IsPlain ip
    → port < 2 ^ 16
    → (split_address (ip ++ 58 ∷ to_digits 5 port) ≡ some (ip, port))
      × (split_address ip ≡ some (ip, default_port))
unfolding split_address
split_address-joined ip port h small = (
  ap with_parts (at_colon-joined ip (to_digits 5 port) h)
      ∙ ap (with_port ip) (stoi-to_digits port small),
  ap with_parts (at_colon-plain ip h),
)
