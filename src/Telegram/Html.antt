-- ===== src/Telegram/Html.antt =====
-- escapeHtml of internal/telegram/helpers.go.
use proxygo.Base.{
  ℕ, zero, suc, ◌≡◌, ◌≢◌, refl, arith, List, [], ◌∷◌, ◌++◌, ◌==◌, if◌then◌else◌, All, take,
  bytes_beq,
}
use proxygo.Base.Text.{codes}

-- What NewReplacer puts in the place of one byte.
abbrev pub escaped : ℕ → List ℕ → List ℕ
escaped r rest =
    if r == b'&'
    then codes "&amp;" ++ rest
    else if r == b'<'
    then codes "&lt;" ++ rest
    else if r == b'>'
    then codes "&gt;" ++ rest
    else r ∷ rest

unfoldable pub escape_html : List ℕ → List ℕ
escape_html [] = []
escape_html (r ∷ s) = escaped r (escape_html s)

-- ---------- how the receiver of the message reads it

-- The byte that the whole entity stands for, after its `&`, and how many bytes are left of it. An `&`
-- that starts none of the three stands for itself.
abbrev pub entity : List ℕ → ℕ × ℕ
entity s =
    if bytes_beq (take 4 s) (codes "amp;")
    then (b'&', 4)
    else if bytes_beq (take 3 s) (codes "lt;")
    then (b'<', 3)
    else if bytes_beq (take 3 s) (codes "gt;")
    then (b'>', 3)
    else (b'&', 0)

unfoldable pub read_text : ℕ → List ℕ → List ℕ
read_text skip [] = []
read_text (suc skip) (r ∷ s) = read_text skip s
read_text zero (r ∷ s) =
    let this = if r == b'&' then entity s else (r, 0) in this.0 ∷ read_text this.1 s

abbrev pub IsNoTag : ℕ → Type 0
IsNoTag r = (r ≢ b'<') × (r ≢ b'>')

-- An escaped text holds no `<` and no `>`, so no tag of HTML, and a reader that knows the entities
-- `&amp;`, `&lt;` and `&gt;` reads it back as the text that was escaped.
pub escape_html-text :
    (s : List ℕ) → All IsNoTag (escape_html s) × (read_text 0 (escape_html s) ≡ s)
unfolding escape_html read_text
escape_html-text [] = (tt, refl)
escape_html-text (r ∷ s) = ground (arith, escape_html-text s)
