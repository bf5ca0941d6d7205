-- ===== src/Schema/Cells.antt =====
-- The cells of a CSV row: what stands between its commas.
use kist_data_collector.Common.{
  ℕ, ◌≡◌, refl, ap, ◌∙◌, List, [], ◌∷◌, ◌++◌, append_assoc, if◌then◌else◌, ◌==◌, Every, arith,
}
use kist_data_collector.Common.Text.{Text, comma, commas}

-- A byte in front of the cells that follow it.
abbrev on_first : ℕ → List Text → List Text
on_first c [] = (c ∷ []) ∷ []
on_first c (t ∷ ts) = (c ∷ t) ∷ ts

-- A row cut at its commas.
unfoldable pub split : Text → List Text
split [] = [] ∷ []
split (c ∷ s) = let rest = split s in if c == b',' then [] ∷ rest else on_first c rest

-- Cells, each behind a comma.
abbrev pub behind : List Text → Text
behind [] = []
behind (c ∷ cs) = comma ++ (c ++ behind cs)

-- No comma in a cell.
abbrev pub IsCell : Text → Type 0
IsCell c = commas c ≡ 0

-- A row that is put together from cells without commas is cut into them.
pub split-behind :
    (first : Text) (cells : List Text)
    → IsCell first
    → Every IsCell cells
    → split (first ++ behind cells) ≡ first ∷ cells
unfolding split
split-behind [] [] h v = refl
split-behind [] (c ∷ cs) h (k, ks) = ap (◌∷◌ []) (split-behind c cs k ks)
split-behind (d ∷ t) cs h v = ground (arith, split-behind t cs)

pub behind-append : (xs ys : List Text) → behind (xs ++ ys) ≡ behind xs ++ behind ys
behind-append [] ys = refl
behind-append (x ∷ xs) ys =
    ap (λ s. comma ++ (x ++ s)) (behind-append xs ys) ∙ ap (λ s. comma ++ s) simp append_assoc

-- A field of a row: the name of its column, and its cell.
abbrev pub Field : Type 0
Field = Text × Text

abbrev pub names : List Field → List Text
names [] = []
names ((n, c) ∷ fs) = n ∷ names fs

abbrev pub cells : List Field → List Text
cells [] = []
cells ((n, c) ∷ fs) = c ∷ cells fs

pub cells-append : (xs ys : List Field) → cells (xs ++ ys) ≡ cells xs ++ cells ys
cells-append [] ys = refl
cells-append ((n, c) ∷ xs) ys = ap (◌∷◌ c) (cells-append xs ys)

-- The cells of the row `t` are those of `fields`, in their order, under a header that names them.
abbrev pub IsTable : (header row : Text) → List Field → Type 0
IsTable header row fields = (split header ≡ names fields) × (split row ≡ cells fields)
