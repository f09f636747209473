-- ===== src/Text/Split.antt =====
-- Splitting at a byte, and joining.
use dart_edge.Base.{
  ℕ, ◌≡◌, ◌≢◌, refl, Bool, List, [], ◌∷◌, ◌++◌, Option, none, some, arith, ◌==◌, if◌then◌else◌, All,
  filter_by, is_empty, not,
}
use dart_edge.Text.Bytes.{Str}

abbrev onto_head : ℕ → List Str → List Str
onto_head b [] = (b ∷ []) ∷ []
onto_head b (p ∷ ps) = (b ∷ p) ∷ ps

-- `split` at every occurrence; the empty text is one empty piece.
unfoldable pub split : ℕ → Str → List Str
split c [] = [] ∷ []
split c (b ∷ s) = let rest = split c s in if b == c then [] ∷ rest else onto_head b rest

-- `split_once`: the text before and after the first occurrence.
unfoldable pub split_once : ℕ → Str → Option (Str × Str)
split_once c [] = none
split_once c (b ∷ s) =
    let rest = split_once c s in
    if b == c then some ([], s) else elim rest [ none ↦ none | some (p, q) ↦ some (b ∷ p, q) ]

unfoldable pub join : ℕ → List Str → Str
join c [] = []
join c (p ∷ []) = p
join c (p ∷ q ∷ ps) = p ++ (c ∷ join c (q ∷ ps))

-- No byte of the text is `c`.
abbrev pub Lacks : ℕ → Str → Type 0
Lacks c = All (λ b. b ≢ c)

split-cons_of_Lacks : (c : ℕ) (p s : Str) → Lacks c p → split c (p ++ (c ∷ s)) ≡ p ∷ split c s
unfolding split
split-cons_of_Lacks c [] s h = ground arith
split-cons_of_Lacks c (b ∷ p) s h = ground (arith, split-cons_of_Lacks c p s h.1)

split-eq_of_Lacks : (c : ℕ) (p : Str) → Lacks c p → split c p ≡ p ∷ []
unfolding split
split-eq_of_Lacks c [] h = refl
split-eq_of_Lacks c (b ∷ p) h = ground (arith, split-eq_of_Lacks c p h.1)

onto_head-Lacks :
    (c b : ℕ) (ps : List Str) → b ≢ c → All (Lacks c) ps → All (Lacks c) (onto_head b ps)
onto_head-Lacks c b [] h k = ((h, tt), tt)
onto_head-Lacks c b (p ∷ ps) h k = ((h, k.0), k.1)

-- No piece holds the separator.
pub split-Lacks : (c : ℕ) (s : Str) → All (Lacks c) (split c s)
unfolding split
split-Lacks c [] = (tt, tt)
split-Lacks c (b ∷ s) = ground (arith, split-Lacks c s, onto_head-Lacks c b (split c s))

abbrev pub non_empty : Str → Bool
non_empty s = not (is_empty s)

-- The pieces that hold something.
abbrev pub pieces : ℕ → Str → List Str
pieces c s = filter_by non_empty (split c s)

-- A piece as `pieces` gives it.
abbrev pub IsPiece : ℕ → Str → Type 0
IsPiece c s = (s ≢ []) × Lacks c s

filter_by-IsPiece :
    (c : ℕ) (ps : List Str) → All (Lacks c) ps → All (IsPiece c) (filter_by non_empty ps)
filter_by-IsPiece c [] h = tt
filter_by-IsPiece c ([] ∷ ps) h = filter_by-IsPiece c ps h.1
filter_by-IsPiece c ((b ∷ p) ∷ ps) h = ((λ e. cc, h.0), filter_by-IsPiece c ps h.1)

pub pieces-IsPiece : (c : ℕ) (s : Str) → All (IsPiece c) (pieces c s)
pieces-IsPiece c s = filter_by-IsPiece c (split c s) (split-Lacks c s)

-- A piece stands first, when the separator follows it.
pub pieces-cons : (c : ℕ) (p s : Str) → IsPiece c p → pieces c (p ++ (c ∷ s)) ≡ p ∷ pieces c s
pieces-cons c [] s h = absurd (h.0 refl)
pieces-cons c (b ∷ p) s h = rw (split-cons_of_Lacks c (b ∷ p) s h.1)

pub pieces_of_IsPiece : (c : ℕ) (p : Str) → IsPiece c p → pieces c p ≡ p ∷ []
pieces_of_IsPiece c [] h = absurd (h.0 refl)
pieces_of_IsPiece c (b ∷ p) h = rw (split-eq_of_Lacks c (b ∷ p) h.1)

-- A separator at the head is dropped.
pub pieces-separator : (c : ℕ) (s : Str) → pieces c (c ∷ s) ≡ pieces c s
unfolding split
pieces-separator c s = ground arith

-- Joined pieces come apart again.
pub pieces-join : (c : ℕ) (ps : List Str) → All (IsPiece c) ps → pieces c (join c ps) ≡ ps
unfolding join split
pieces-join c [] h = refl
pieces-join c (p ∷ []) h = pieces_of_IsPiece c p h.0
pieces-join c (p ∷ q ∷ ps) h =
    rw (pieces-cons c p (join c (q ∷ ps)) h.0, pieces-join c (q ∷ ps) h.1)
