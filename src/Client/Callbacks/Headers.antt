-- ===== src/Client/Callbacks/Headers.antt =====
-- `header_callback` of src/vme/vantiq_client.c: what it makes of a response header.
use vantiq_sdk_micro.Base.{
  and_left, drop_left, ◌^◌, c_str-terminated, ℕ, ◌-◌, ◌*◌, ◌%◌, ◌≤◌, ◌<◌, ◌≡◌, refl, ap, ◌∙◌, Bool,
  true, false, ◌&&◌, inl, inr, Option, none, some, [], ◌∷◌, ◌++◌, Bytes, arith, ltb, leb, lt→ltb,
  le→ltb, le→leb, Bool-cases, if◌then◌else◌, length, drop, take_all, length-drop, c_str, IsText,
  nil, cons, IsText-append, size_mod, length-append, ltb→lt, ltb→le,
}
use vantiq_sdk_micro.Memory.{World, Run, and_then, ok, pure, fault}
use vantiq_sdk_micro.Buf.{read_block}
use vantiq_sdk_micro.Buf.Contents.{read_block_lem}
use vantiq_sdk_micro.Number.{decimal, atoi, to_uint32}
use vantiq_sdk_micro.Number.RoundTrip.{IsText-decimal, length-decimal, atoi-decimal, atoi_blank}
use vantiq_sdk_micro.Client.{Client}
use vantiq_sdk_micro.Client.Callbacks.{
  equal_nocase, count_header, set_count, read_count, header_callback,
}

-- The line is a count header with something behind its name.
abbrev pub is_count : Bytes → Bool
is_count line = ltb 14 (length line) && equal_nocase 14 line count_header

abbrev uint32_of : Option (Bool × ℕ) → Option ℕ
uint32_of none = none
uint32_of (some (negative, n)) = some (to_uint32 negative n)

-- The count that is recorded after a header line, given the one before it; `none` where the line
-- runs over the buffer of 32 bytes or shows no `int`.
abbrev pub counted : Bytes → ℕ → Option ℕ
counted line old =
    if is_count line
    then if ltb (length line) 46 then uint32_of (atoi (c_str (drop 14 line ++ 0 ∷ []))) else none
    else some old

-- The callback with that count: it takes the whole line and changes nothing else.
abbrev pub with_count : Option ℕ → Bytes → Client → World → Run (ℕ × Client)
with_count none line c w = fault
with_count (some n) line c w = ok (length line, record c { result_count = n }) w

set_count_lem :
    (v : Option (Bool × ℕ)) (line : Bytes) (c : Client) (w : World)
    → and_then (set_count v c w) (λ c'. pure (length line, c')) ≡ with_count (uint32_of v) line c w
unfolding set_count
set_count_lem none line c w = refl
set_count_lem (some (negative, n)) line c w = refl

read_block-drop :
    (line : Bytes) (w : World)
    → 14 ≤ length line
    → read_block (drop 14 line) (length line - 14) w ≡ ok (drop 14 line) w
read_block-drop line w h =
    let n = length-drop 14 line in
    read_block_lem (drop 14 line) (length line - 14) w (omega arith)
    ∙ ap (λ s. ok s w) (take_all (length line - 14) (drop 14 line) (omega arith))

read_count_fits :
    (line : Bytes) (c : Client) (w : World)
    → 14 < length line
    → length line < 46
    → and_then (read_count line (length line) c w) (λ c'. pure (length line, c'))
      ≡ with_count (uint32_of (atoi (c_str (drop 14 line ++ 0 ∷ [])))) line c w
unfolding read_count
read_count_fits line c w h k =
    rw
      (
        le→leb (length line - 14) 32 (omega arith),
        read_block-drop line w (omega arith),
        lt→ltb (length line - 14) 32 (omega arith),
      )
      (set_count_lem (atoi (c_str (drop 14 line ++ 0 ∷ []))) line c w)

read_count_overruns :
    (line : Bytes) (c : Client) (w : World)
    → 46 ≤ length line
    → read_count line (length line) c w ≡ fault
unfolding read_count
read_count_overruns line c w h = elim (Bool-cases (leb (length line - 14) 32)) [
  | inl copied ↦
      rw (copied, read_block-drop line w (omega arith), le→ltb (length line - 14) 32 (omega arith))
  | inr over ↦ rw over
]

-- For a header line shorter than 2 ^ 64, header_callback takes the whole line and records the
-- number behind the name X-Total-Count in any case of letters; any other line changes nothing;
-- where the count's text needs more than the 31 bytes that its buffer has room for, or shows no
-- int, the behaviour is undefined.
pub header_callback_lem :
    (line : Bytes) (c : Client) (w : World)
    → length line < size_mod
    → header_callback line 1 (length line) c w ≡ with_count (counted line c.result_count) line c w
unfolding header_callback
header_callback_lem line c w h =
    let no_wrap : length line * 1 % size_mod ≡ length line = omega arith in
    rw no_wrap (elim (Bool-cases (is_count line)) [
      | inl named ↦ elim (Bool-cases (ltb (length line) 46)) [
        | inl fits ↦
            rw (named, fits)
              (read_count_fits line c w (ltb→lt _ _ (and_left _ _ named)) (ltb→lt _ _ fits))
        | inr over ↦ rw (named, over, read_count_overruns line c w (ltb→le _ _ over))
      ]
      | inr other ↦ rw other
    ])

-- A header with the name in any case, a blank, a decimal and the end of the line.
abbrev pub count_line : (name : Bytes) → ℕ → Bytes
count_line name n = name ++ (b' ' ∷ (decimal n ++ 13 ∷ 10 ∷ []))

IsText-value : (n : ℕ) → IsText (b' ' ∷ (decimal n ++ 13 ∷ 10 ∷ []))
IsText-value n =
    cons (omega arith)
      (IsText-append (IsText-decimal n) (cons (omega arith) (cons (omega arith) nil)))

atoi_value : (n : ℕ) → n < 2 ^ 31 → atoi (b' ' ∷ (decimal n ++ 13 ∷ 10 ∷ [])) ≡ some (false, n)
atoi_value n h =
    atoi_blank b' ' (decimal n ++ 13 ∷ 10 ∷ []) refl ∙ atoi-decimal n (13 ∷ 10 ∷ []) h refl

counted-count_line :
    (name : Bytes) (n old : ℕ)
    → length name ≡ 14
    → equal_nocase 14 (count_line name n) count_header ≡ true
    → n < 2 ^ 31
    → counted (count_line name n) old ≡ some n
counted-count_line name n old size named h =
    let value = b' ' ∷ (decimal n ++ 13 ∷ 10 ∷ []) in
    let digits = length-decimal n 9 (omega arith) in
    let behind = length-append (decimal n) (13 ∷ 10 ∷ []) in
    let whole = length-append name value in
    let cut : drop 14 (name ++ value) ≡ value = rw size at (drop_left name value) in
    rw (
      lt→ltb 14 (length (name ++ value)) (omega arith),
      named,
      lt→ltb (length (name ++ value)) 46 (omega arith),
      cut,
      c_str-terminated [] (IsText-value n),
      atoi_value n h,
    )

-- If a server prints a number below 2 ^ 31 in a count header, with a blank in front and CR and
-- LF behind it, header_callback records that number.
pub header_callback-decimal :
    (name : Bytes) (n : ℕ) (c : Client) (w : World)
    → length name ≡ 14
    → equal_nocase 14 (count_line name n) count_header ≡ true
    → n < 2 ^ 31
    → header_callback (count_line name n) 1 (length (count_line name n)) c w
      ≡ ok (length (count_line name n), record c { result_count = n }) w
header_callback-decimal name n c w size named h =
    let value = b' ' ∷ (decimal n ++ 13 ∷ 10 ∷ []) in
    let digits = length-decimal n 9 (omega arith) in
    let behind = length-append (decimal n) (13 ∷ 10 ∷ []) in
    let whole = length-append name value in
    header_callback_lem (name ++ value) c w (omega arith)
    ∙ ap (λ m. with_count m (name ++ value) c w)
        (counted-count_line name n c.result_count size named h)
