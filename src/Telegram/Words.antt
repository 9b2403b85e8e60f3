-- ===== src/Telegram/Words.antt =====
-- tokenize and parseCommand of internal/telegram/parse.go.
use proxygo.Base.{
  ℕ, ◌≡◌, ◌≢◌, refl, sym, ◌∙◌, ap, arith, Bool, true, false, not, ◌&&◌, ◌||◌, List, [], ◌∷◌, ◌++◌,
  append-nil, append_assoc, ◌==◌, if◌then◌else◌, All, map,
}

pub record Scan : Type 0 where
  pub out : List (List ℕ)
  pub cur : List ℕ
  pub in_single : Bool
  pub in_double : Bool

abbrev pub flushed : Scan → List ℕ → Scan
flushed t [] = t
flushed t (c ∷ cs) = record t { out = t.out ++ ((c ∷ cs) ∷ []); cur = [] }

abbrev pub flush : Scan → Scan
flush t = flushed t t.cur

abbrev pub is_blank : ℕ → Bool
is_blank r = r == b' ' || r == 9 || r == 10

-- One rune.
abbrev pub turn : ℕ → Scan → Scan
turn r t =
    if r == 39 && not t.in_double
    then record t { in_single = not t.in_single }
    else if r == 34 && not t.in_single
    then record t { in_double = not t.in_double }
    else if is_blank r && not t.in_single && not t.in_double
    then flush t
    else record t { cur = t.cur ++ (r ∷ []) }

unfoldable pub scan : List ℕ → Scan → Scan
scan [] t = flush t
scan (r ∷ s) t = scan s (turn r t)

unfoldable pub tokenize : List ℕ → List (List ℕ)
tokenize s = (scan s (record { out = []; cur = []; in_single = false; in_double = false })).out

-- The command in lower case, with its arguments; no field at all is the empty command.
abbrev pub command_of : (List ℕ → List ℕ) → List (List ℕ) → List ℕ × List (List ℕ)
command_of to_lower [] = ([], [])
command_of to_lower (field ∷ fields) = (to_lower field, fields)

unfoldable pub parse_command : (List ℕ → List ℕ) → List ℕ → List ℕ × List (List ℕ)
parse_command to_lower text = command_of to_lower (tokenize text)

-- ---------- how an admin writes an argument

-- As it is, or between quotes.
pub data Written : Type 0 where
  bare in_singles in_doubles : List ℕ → Written

abbrev pub value : Written → List ℕ
value (bare w) = w
value (in_singles w) = w
value (in_doubles w) = w

abbrev pub spelled : Written → List ℕ
spelled (bare w) = w
spelled (in_singles w) = 39 ∷ w ++ (39 ∷ [])
spelled (in_doubles w) = 34 ∷ w ++ (34 ∷ [])

-- The arguments with a space after each but the last.
abbrev pub line : List Written → List ℕ
line [] = []
line (w ∷ []) = spelled w
line (w ∷ v ∷ ws) = spelled w ++ (b' ' ∷ line (v ∷ ws))

abbrev pub IsPlain : ℕ → Type 0
IsPlain r = (r ≢ 39) × (r ≢ 34) × (r ≢ b' ') × (r ≢ 9) × (r ≢ 10)

-- No argument is empty, and none holds what would end it.
abbrev pub IsArgument : Written → Type 0
IsArgument (bare w) = (w ≢ []) × All IsPlain w
IsArgument (in_singles w) = (w ≢ []) × All (λ r. r ≢ 39) w
IsArgument (in_doubles w) = (w ≢ []) × All (λ r. r ≢ 34) w

-- ---------- reading it back

abbrev state : List (List ℕ) → List ℕ → Bool → Bool → Scan
state out cur s d = record { out = out; cur = cur; in_single = s; in_double = d }

abbrev start : Scan
start = state [] [] false false

turn-bare :
    (r : ℕ) (out : List (List ℕ)) (cur : List ℕ)
    → IsPlain r
    → turn r (state out cur false false) ≡ state out (cur ++ (r ∷ [])) false false
turn-bare r out cur plain = ground arith

turn-single :
    (r : ℕ) (out : List (List ℕ)) (cur : List ℕ)
    → r ≢ 39
    → turn r (state out cur true false) ≡ state out (cur ++ (r ∷ [])) true false
turn-single r out cur other = ground arith

turn-double :
    (r : ℕ) (out : List (List ℕ)) (cur : List ℕ)
    → r ≢ 34
    → turn r (state out cur false true) ≡ state out (cur ++ (r ∷ [])) false true
turn-double r out cur other = ground arith

-- Runes that are taken as they are, one after the other.
scan-taken :
    (P : ℕ → Type 0) (s d : Bool) (w rest : List ℕ) (out : List (List ℕ)) (cur : List ℕ)
    → ((r : ℕ) (cur : List ℕ) → P r → turn r (state out cur s d) ≡ state out (cur ++ (r ∷ [])) s d)
    → All P w
    → scan (w ++ rest) (state out cur s d) ≡ scan rest (state out (cur ++ w) s d)
unfolding scan
scan-taken P s d [] rest out cur taken all = ap (λ c. scan rest (state out c s d)) (simp append-nil)
scan-taken P s d (r ∷ w) rest out cur taken (this, all) =
    ap (scan (w ++ rest)) (taken r cur this)
    ∙ scan-taken P s d w rest out (cur ++ (r ∷ [])) taken all
    ∙ ap (λ c. scan rest (state out c s d)) (append_assoc cur (r ∷ []) w)

-- An argument fills `cur`, however it is written.
scan-spelled :
    (w : Written) (rest : List ℕ) (out : List (List ℕ))
    → IsArgument w
    → scan (spelled w ++ rest) (state out [] false false)
      ≡ scan rest (state out (value w) false false)
unfolding scan
scan-spelled (bare w) rest out (some_rune, all) =
    scan-taken IsPlain false false w rest out [] (λ r cur. turn-bare r out cur) all
scan-spelled (in_singles w) rest out (some_rune, all) =
    ap (λ t. scan t (state out [] true false)) (append_assoc w (39 ∷ []) rest)
    ∙ scan-taken (λ r. r ≢ 39) true false w (39 ∷ rest) out [] (λ r cur. turn-single r out cur) all
scan-spelled (in_doubles w) rest out (some_rune, all) =
    ap (λ t. scan t (state out [] false true)) (append_assoc w (34 ∷ []) rest)
    ∙ scan-taken (λ r. r ≢ 34) false true w (34 ∷ rest) out [] (λ r cur. turn-double r out cur) all

flushed-value :
    (w : Written) (out : List (List ℕ))
    → IsArgument w
    → flush (state out (value w) false false) ≡ state (out ++ (value w ∷ [])) [] false false
flushed-value w out valid = taken_out (value w) (some_rune w valid)
  where
    some_rune : (w : Written) → IsArgument w → value w ≢ []
    some_rune (bare w) (filled, all) = filled
    some_rune (in_singles w) (filled, all) = filled
    some_rune (in_doubles w) (filled, all) = filled

    taken_out :
        (v : List ℕ)
        → v ≢ []
        → flush (state out v false false) ≡ state (out ++ (v ∷ [])) [] false false
    taken_out [] filled = absurd (filled refl)
    taken_out (c ∷ cs) filled = refl

scan-line :
    (ws : List Written) (out : List (List ℕ))
    → All IsArgument ws
    → (scan (line ws) (state out [] false false)).out ≡ out ++ map value ws
unfolding scan
scan-line [] out all = simp append-nil
scan-line (w ∷ []) out (valid, all) =
    ap (λ t. (scan t (state out [] false false)).out) (sym (append-nil (spelled w)))
    ∙ ap (λ (t : Scan). t.out) (scan-spelled w [] out valid ∙ flushed-value w out valid)
scan-line (w ∷ v ∷ ws) out (valid, all) =
    ap (λ (t : Scan). t.out)
      (scan-spelled w (b' ' ∷ line (v ∷ ws)) out valid
        ∙ ap (scan (line (v ∷ ws))) (flushed-value w out valid))
    ∙ scan-line (v ∷ ws) (out ++ (value w ∷ [])) all
    ∙ append_assoc out (value w ∷ []) (map value (v ∷ ws))

-- Arguments that are not empty and are written with a space between them, each as it is where it
-- has no blank and no quote, and else between single or double quotes that it does not hold, are
-- read back as they were, blanks inside quotes included.
pub tokenize-line : (ws : List Written) → All IsArgument ws → tokenize (line ws) ≡ map value ws
unfolding tokenize
tokenize-line ws all = scan-line ws [] all
