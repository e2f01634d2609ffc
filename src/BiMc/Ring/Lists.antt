-- ===== src/BiMc/Ring/Lists.antt =====
-- Lists of distinct objects.
use bi_project.BiMc.Ring.Reclaim.{Distinct}
use bi_project.Base.{All, All-append, ℕ, sym, ◌≢◌, List, [], ◌∷◌, ◌++◌}

pub Distinct-right : (xs ys : List ℕ) → Distinct (xs ++ ys) → Distinct ys
Distinct-right [] ys h = h
Distinct-right (x ∷ xs) ys h = Distinct-right xs ys h.1

pub All-left : (P : ℕ → Type 0) (xs ys : List ℕ) → All P (xs ++ ys) → All P xs
All-left P [] ys h = tt
All-left P (x ∷ xs) ys h = (h.0, All-left P xs ys h.1)

pub All-right : (P : ℕ → Type 0) (xs ys : List ℕ) → All P (xs ++ ys) → All P ys
All-right P [] ys h = h
All-right P (x ∷ xs) ys h = All-right P xs ys h.1

-- No object of the second part is one of the first.
pub Distinct-apart : (xs ys : List ℕ) → Distinct (xs ++ ys) → All (λ b. All (λ a. b ≢ a) xs) ys
Distinct-apart xs [] h = tt
Distinct-apart xs (y ∷ ys) h = (first xs h, Distinct-apart xs ys (without xs h))
  where
    first : (zs : List ℕ) → Distinct (zs ++ (y ∷ ys)) → All (λ a. y ≢ a) zs
    first [] d = tt
    first (z ∷ zs) d = ((All-right (λ b. b ≢ z) zs (y ∷ ys) d.0).0, first zs d.1)

    skip : (P : ℕ → Type 0) (zs : List ℕ) → All P (zs ++ (y ∷ ys)) → All P (zs ++ ys)
    skip P [] a = a.1
    skip P (z ∷ zs) a = (a.0, skip P zs a.1)

    without : (zs : List ℕ) → Distinct (zs ++ (y ∷ ys)) → Distinct (zs ++ ys)
    without [] d = d.1
    without (z ∷ zs) d = (skip (λ b. b ≢ z) zs d.0, without zs d.1)

pub Distinct-snoc :
    (q : List ℕ) (a : ℕ) → Distinct q → All (λ b. b ≢ a) q → Distinct (q ++ (a ∷ []))
Distinct-snoc [] a d ne = (tt, tt)
Distinct-snoc (x ∷ q) a d ne =
    (All-append (λ b. b ≢ x) q (a ∷ []) d.0 (λ e. ne.0 (sym e), tt), Distinct-snoc q a d.1 ne.1)

-- Two lists of facts about one list
pub All-both :
    (P Q R : ℕ → Type 0) (q : List ℕ) → ((b : ℕ) → P b → Q b → R b) → All P q → All Q q → All R q
All-both P Q R [] f hp hq = tt
All-both P Q R (x ∷ q) f hp hq = (f x hp.0 hq.0, All-both P Q R q f hp.1 hq.1)
