-- ===== src/Parser/Spans.antt =====
-- Where the pointers that src/ihtp_parser.c stores may point: spans of the input before a limit.
use iohttpparser.Base.{ℕ, zero, suc, ◌+◌, ◌≤◌, ◌<◌, subst, arith, List, [], ◌∷◌, get_or, set, take}
use iohttpparser.Types.{Header, zero_header}

-- A header before `limit`: a name that is not empty, a colon, a value.
pub record Inside (limit : ℕ) (h : Header) : Type 0 where
  pub name_pos : 0 < h.name_len
  pub name_end : h.name + h.name_len < h.value
  pub value_end : h.value + h.value_len ≤ limit

abbrev pub AllInside : ℕ → List Header → Type 0
AllInside limit [] = Unit
AllInside limit (h ∷ hs) = Inside limit h × AllInside limit hs

pub Inside-le : {m n : ℕ} {h : Header} → m ≤ n → Inside m h → Inside n h
Inside-le le i = record {
  name_pos = i.name_pos;
  name_end = i.name_end;
  value_end = omega (arith, i.value_end);
}

pub AllInside-le : (m n : ℕ) (hs : List Header) → m ≤ n → AllInside m hs → AllInside n hs
AllInside-le m n [] le all = tt
AllInside-le m n (h ∷ hs) le all = (Inside-le le all.0, AllInside-le m n hs le all.1)

-- One more header.
AllInside-add_suc :
    (limit n : ℕ) (hs : List Header) (h : Header)
    → AllInside limit (take n hs)
    → Inside limit h
    → AllInside limit (take (suc n) (set hs n h))
AllInside-add_suc limit n [] h all i = tt
AllInside-add_suc limit zero (x ∷ xs) h all i = (i, tt)
AllInside-add_suc limit (suc n) (x ∷ xs) h all i = (all.0, AllInside-add_suc limit n xs h all.1 i)

pub AllInside-add :
    (limit n : ℕ) (hs : List Header) (h : Header)
    → AllInside limit (take n hs)
    → Inside limit h
    → AllInside limit (take (n + 1) (set hs n h))
AllInside-add limit n hs h all i =
    subst (λ (k : ℕ). AllInside limit (take k (set hs n h))) {x = suc n} (omega arith)
      (AllInside-add_suc limit n hs h all i)

-- A header in the place of the one at `i`, which may use that the old one was inside.
pub AllInside-set :
    (limit n i : ℕ) (hs : List Header) (h : Header)
    → i < n
    → AllInside limit (take n hs)
    → (Inside limit (get_or hs i zero_header) → Inside limit h)
    → AllInside limit (take n (set hs i h))
AllInside-set limit n i [] h lt all keep = all
AllInside-set limit zero i (x ∷ xs) h lt all keep = absurd (omega arith)
AllInside-set limit (suc n) zero (x ∷ xs) h lt all keep = (keep all.0, all.1)
AllInside-set limit (suc n) (suc i) (x ∷ xs) h lt all keep =
    (all.0, AllInside-set limit n i xs h (omega arith) all.1 keep)
