-- ===== src/Mail/Storage/ReadFile.antt =====
-- FileSystemMailStorage::read_file: a stream read in blocks into a buffer that is used again.
use simple_pop3serv.Base.{
  ℕ, zero, suc, ◌≤◌, ◌<◌, ◌≡◌, sym, ap, ◌∙◌, inl, inr, Option, none, some, [], ◌∷◌, ◌++◌,
  append_assoc, leb, if◌then◌else◌, arith, length, length-append, take, drop, take-drop,
  length-drop, take-length, take-append, Bytes, Bool-cases, true,
}

abbrev pub read_size : ℕ
read_size = 4096

-- `stream.gcount()` after `stream.read` of `size` bytes.
abbrev pub gcount : ℕ → Bytes → ℕ
gcount size left = if leb size (length left) then size else length left

-- The buffer after `stream.read`: behind the bytes that were read stand those of earlier rounds.
abbrev pub fill : ℕ → Bytes → Bytes → Bytes
fill size buf left = take size left ++ drop (gcount size left) buf

-- The rounds of the loop, on fuel, and the `append` behind it: `stream.read` is true as long as it
-- reads a whole block.
unfoldable pub read_loop : ℕ → ℕ → Bytes → Bytes → Bytes → Option Bytes
read_loop size zero out buf left = none
read_loop size (suc rounds) out buf left =
    let filled = fill size buf left in
    let out' = out ++ take (gcount size left) filled in
    let rest = read_loop size rounds out' filled (drop size left) in
    if leb size (length left) then rest else some out'

abbrev zeros : ℕ → Bytes
zeros zero = []
zeros (suc n) = 0 ∷ zeros n

abbrev pub read_file : ℕ → Bytes → Option Bytes
read_file rounds content = read_loop read_size rounds [] (zeros read_size) content

length-take : (size : ℕ) (left : Bytes) → length (take size left) ≡ gcount size left
length-take size left = elim (Bool-cases (leb size (length left))) [
  | inl whole ↦ rw whole (
      omega (
        arith,
        ap length (take-drop size left),
        length-append (take size left) (drop size left),
        length-drop size left,
        leb_le whole,
      ))
  | inr part ↦ rw part (ap length (take-length size left (ground arith)))
]
  where
    leb_le : leb size (length left) ≡ true → size ≤ length left
    leb_le e = ground arith

-- What a round appends.
appended :
    (size : ℕ) (buf left : Bytes) → take (gcount size left) (fill size buf left) ≡ take size left
appended size buf left =
    ap (λ n. take n (fill size buf left)) (sym (length-take size left))
    ∙ take-append (take size left) (drop (gcount size left) buf)

read_loop-content :
    (size : ℕ) (rounds : ℕ) (out buf left : Bytes)
    → 0 < size
    → length left < rounds
    → read_loop size rounds out buf left ≡ some (out ++ left)
unfolding read_loop
read_loop-content size zero out buf left pos enough = absurd (omega arith)
read_loop-content size (suc rounds) out buf left pos enough =
    elim (Bool-cases (leb size (length left))) [
      | inl whole ↦
          rw (appended size buf left, whole)
            (read_loop-content size rounds (out ++ take size left) (take size left ++ drop size buf)
                (drop size left) pos (ground (arith, length-drop size left))
              ∙ ap some (
                  append_assoc out (take size left) (drop size left)
                  ∙ ap (◌++◌ out) (take-drop size left)))
      | inr part ↦
          rw (appended size buf left, part)
            (ap (λ bytes. some (out ++ bytes)) (take-length size left (ground arith)))
    ]

-- With more rounds than the stream has bytes, `read_file` ends, and what it returns is the whole
-- content of the stream.
pub read_file-content :
    (content : Bytes) (rounds : ℕ)
    → length content < rounds
    → read_file rounds content ≡ some content
read_file-content content rounds enough =
    read_loop-content read_size rounds [] (zeros read_size) content (omega arith) enough
