-- ===== src/Telegram/Tail.antt =====
-- tailFile of internal/telegram/helpers.go.
use proxygo.Base.{
  ℕ, zero, suc, ◌-◌, ◌<◌, ◌≡◌, ◌≢◌, refl, ◌∙◌, ap, arith, Bool, true, false, ◌&&◌, Option, none,
  some, List, [], ◌∷◌, ◌++◌, append_assoc, ltb, ◌==◌, if◌then◌else◌, Bool-cases, inl, inr, length,
  drop, length-drop, All, is_empty,
}
use proxygo.Base.Int.{ℤ, pos, negsuc}
use Prim.Native.Nat.{min}

-- strings.TrimRight(s, "\n"), strings.Split(s, "\n") and strings.Join(lines, "\n")
unfoldable pub trim_right : List ℕ → List ℕ
trim_right [] = []
trim_right (b ∷ s) = let rest = trim_right s in if b == 10 && is_empty rest then [] else b ∷ rest

abbrev pub onto_first : ℕ → List (List ℕ) → List (List ℕ)
onto_first b [] = (b ∷ []) ∷ []
onto_first b (l ∷ ls) = (b ∷ l) ∷ ls

unfoldable pub split_lines : List ℕ → List (List ℕ)
split_lines [] = [] ∷ []
split_lines (b ∷ s) = let rest = split_lines s in if b == 10 then [] ∷ rest else onto_first b rest

unfoldable pub join_lines : List (List ℕ) → List ℕ
join_lines [] = []
join_lines (l ∷ []) = l
join_lines (l ∷ k ∷ ls) = l ++ (10 ∷ join_lines (k ∷ ls))

-- `if n <= 0 { n = 1 }`
abbrev pub line_count : ℤ → ℕ
line_count (pos zero) = 1
line_count (pos (suc n)) = suc n
line_count (negsuc n) = 1

abbrev pub last_lines : ℕ → List (List ℕ) → List (List ℕ)
last_lines n lines = if ltb n (length lines) then drop (length lines - n) lines else lines

unfoldable pub tail_text : ℤ → List ℕ → List ℕ
tail_text n text = join_lines (last_lines (line_count n) (split_lines (trim_right text)))

-- `none` for the file is an error of Open or ReadAll, and for the result a message that says so.
abbrev pub tail_file : Option (List ℕ) → ℤ → Option (List ℕ)
tail_file none n = none
tail_file (some text) n = some (tail_text n text)

-- ---------- lines

abbrev pub IsLine : List ℕ → Type 0
IsLine l = All (λ b. b ≢ 10) l

split_lines-filled : (s : List ℕ) → 0 < length (split_lines s)
unfolding split_lines
split_lines-filled [] = omega arith
split_lines-filled (b ∷ s) = filled (b == 10) (split_lines s)
  where
    filled :
        (newline : Bool) (rest : List (List ℕ))
        → 0 < length (if newline then [] ∷ rest else onto_first b rest)
    filled true rest = omega arith
    filled false [] = omega arith
    filled false (l ∷ ls) = omega arith

split_lines-IsLine : (s : List ℕ) → All IsLine (split_lines s)
unfolding split_lines
split_lines-IsLine [] = (tt, tt)
split_lines-IsLine (b ∷ s) = elim (Bool-cases (b == 10)) [
  | inl newline ↦ rw newline (tt, split_lines-IsLine s)
  | inr other ↦ rw other (onto (split_lines s) (ground arith) (split_lines-IsLine s))
]
  where
    onto : (ls : List (List ℕ)) → b ≢ 10 → All IsLine ls → All IsLine (onto_first b ls)
    onto [] differs all = ((differs, tt), tt)
    onto (l ∷ ls) differs (line, all) = ((differs, line), all)

join_lines-onto : (b : ℕ) (ls : List (List ℕ)) → join_lines (onto_first b ls) ≡ b ∷ join_lines ls
unfolding join_lines
join_lines-onto b [] = refl
join_lines-onto b (l ∷ []) = refl
join_lines-onto b (l ∷ k ∷ ls) = refl

join_lines-empty : (ls : List (List ℕ)) → 0 < length ls → join_lines ([] ∷ ls) ≡ 10 ∷ join_lines ls
unfolding join_lines
join_lines-empty [] filled = absurd (omega arith)
join_lines-empty (l ∷ ls) filled = refl

join_lines-split_lines : (s : List ℕ) → join_lines (split_lines s) ≡ s
unfolding split_lines join_lines
join_lines-split_lines [] = refl
join_lines-split_lines (b ∷ s) = elim (Bool-cases (b == 10)) [
  | inl newline ↦ rw newline (
      join_lines-empty (split_lines s) (split_lines-filled s)
      ∙ ground (arith, join_lines-split_lines s))
  | inr other ↦
      rw other (join_lines-onto b (split_lines s) ∙ ap (λ t. b ∷ t) (join_lines-split_lines s))
]

split_lines-line :
    (l rest : List ℕ) → IsLine l → split_lines (l ++ (10 ∷ rest)) ≡ l ∷ split_lines rest
unfolding split_lines
split_lines-line [] rest line = refl
split_lines-line (b ∷ l) rest (other, line) =
    ap (λ ls. if b == 10 then [] ∷ ls else onto_first b ls) (split_lines-line l rest line)
    ∙ ground arith

split_lines-last : (l : List ℕ) → IsLine l → split_lines l ≡ l ∷ []
unfolding split_lines
split_lines-last [] line = refl
split_lines-last (b ∷ l) (other, line) =
    ap (λ ls. if b == 10 then [] ∷ ls else onto_first b ls) (split_lines-last l line) ∙ ground arith

split_lines-join_lines :
    (ls : List (List ℕ)) → 0 < length ls → All IsLine ls → split_lines (join_lines ls) ≡ ls
unfolding join_lines
split_lines-join_lines [] filled all = absurd (omega arith)
split_lines-join_lines (l ∷ []) filled (line, all) = split_lines-last l line
split_lines-join_lines (l ∷ k ∷ ls) filled (line, all) =
    split_lines-line l (join_lines (k ∷ ls)) line
    ∙ ap (λ rest. l ∷ rest) (split_lines-join_lines (k ∷ ls) (omega arith) all)

-- ---------- the last lines

drop-IsLine : (n : ℕ) (ls : List (List ℕ)) → All IsLine ls → All IsLine (drop n ls)
drop-IsLine zero ls all = all
drop-IsLine (suc n) [] all = all
drop-IsLine (suc n) (l ∷ ls) (line, all) = drop-IsLine n ls all

-- The joined rest of a list of lines is the end of the joined list.
join_lines-drop :
    (n : ℕ) (ls : List (List ℕ))
    → n < length ls
    → (front : List ℕ) × (front ++ join_lines (drop n ls) ≡ join_lines ls)
unfolding join_lines
join_lines-drop zero ls fewer = ([], refl)
join_lines-drop (suc n) [] fewer = absurd (omega arith)
join_lines-drop (suc n) (l ∷ []) fewer = absurd (omega arith)
join_lines-drop (suc n) (l ∷ k ∷ ls) fewer =
    let (front, same) = join_lines-drop n (k ∷ ls) (omega arith) in
    (
      l ++ (10 ∷ front),
      append_assoc l (10 ∷ front) (join_lines (drop n (k ∷ ls))) ∙ ap (λ t. l ++ (10 ∷ t)) same,
    )

-- The end of a text, in lines.
abbrev pub IsTail : ℕ → List ℕ → List ℕ → Type 0
IsTail n text r =
    ((front : List ℕ) × (front ++ r ≡ text))
    × (length (split_lines r) ≡ min n (length (split_lines text)))

last_lines-IsTail :
    (n : ℕ) (text : List ℕ) → 0 < n → IsTail n text (join_lines (last_lines n (split_lines text)))
last_lines-IsTail n text some_line =
    let lines = split_lines text in
    let whole = join_lines-split_lines text in
    elim (Bool-cases (ltb n (length lines))) [
      | inl longer ↦ rw longer (
          let cut = length lines - n in
          let (front, same) = join_lines-drop cut lines (ground arith) in
          (
            (front, same ∙ whole),
            ap length (
                  split_lines-join_lines (drop cut lines) (ground (arith, length-drop cut lines))
                    (drop-IsLine cut lines (split_lines-IsLine text)))
                ∙ ground (arith, length-drop cut lines),
          ))
      | inr short ↦ rw short (([], whole), ap (λ t. length (split_lines t)) whole ∙ ground arith)
    ]

-- What /log shows of a file that can be read is the end of the file without its last newlines, and it
-- has as many lines as were asked for, or one where that is not positive, or all lines where the
-- file has no more.
pub tail_text-IsTail :
    (n : ℤ) (text : List ℕ) → IsTail (line_count n) (trim_right text) (tail_text n text)
unfolding tail_text
tail_text-IsTail n text = last_lines-IsTail (line_count n) (trim_right text) (positive n)
  where
    positive : (n : ℤ) → 0 < line_count n
    positive (pos zero) = omega arith
    positive (pos (suc n)) = omega arith
    positive (negsuc n) = omega arith
