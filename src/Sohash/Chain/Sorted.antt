-- ===== src/Sohash/Chain/Sorted.antt =====
-- Sorted lists under the changes that the hash makes, and what a lookup then sees.
use mvfs.Prelude.{◌≤◌, ◌≡◌, refl, List, [], ◌∷◌, ◌++◌, Bool, false, arith, All}
use mvfs.Sohash.Types.{Entry}
use mvfs.Sohash.Chain.Walk.{IsSorted, first_match}

pub All-append : (P : Entry → Type 0) (xs ys : List Entry) → All P xs → All P ys → All P (xs ++ ys)
All-append P [] ys p q = q
All-append P (x ∷ xs) ys p q = (p.0, All-append P xs ys p.1 q)

pub All-left : (P : Entry → Type 0) (xs ys : List Entry) → All P (xs ++ ys) → All P xs
All-left P [] ys p = tt
All-left P (x ∷ xs) ys p = (p.0, All-left P xs ys p.1)

pub All-right : (P : Entry → Type 0) (xs ys : List Entry) → All P (xs ++ ys) → All P ys
All-right P [] ys p = p
All-right P (x ∷ xs) ys p = All-right P xs ys p.1

pub All-imp :
    (P Q : Entry → Type 0) (xs : List Entry) → ((e : Entry) → P e → Q e) → All P xs → All Q xs
All-imp P Q [] f p = tt
All-imp P Q (x ∷ xs) f p = (f x p.0, All-imp P Q xs f p.1)

pub IsSorted-right : (xs ys : List Entry) → IsSorted (xs ++ ys) → IsSorted ys
IsSorted-right [] ys s = s
IsSorted-right (x ∷ xs) ys s = IsSorted-right xs ys s.1

-- An entry between those that are not above it and those that are not below it.
pub IsSorted-insert :
    (xs ys : List Entry) (n : Entry)
    → IsSorted (xs ++ ys)
    → All (λ e. e.reverse_so_key ≤ n.reverse_so_key) xs
    → All (λ e. n.reverse_so_key ≤ e.reverse_so_key) ys
    → IsSorted (xs ++ (n ∷ ys))
IsSorted-insert [] ys n s lo hi = (hi, s)
IsSorted-insert (x ∷ xs) ys n s lo hi = (
  All-append _ xs (n ∷ ys) (All-left _ xs ys s.0) (lo.0, All-right _ xs ys s.0),
  IsSorted-insert xs ys n s.1 lo.1 hi,
)

IsSorted-delete : (xs ys : List Entry) (d : Entry) → IsSorted (xs ++ (d ∷ ys)) → IsSorted (xs ++ ys)
IsSorted-delete [] ys d s = s.1
IsSorted-delete (x ∷ xs) ys d s = (
  All-append _ xs ys (All-left _ xs (d ∷ ys) s.0) (All-right _ xs (d ∷ ys) s.0).1,
  IsSorted-delete xs ys d s.1,
)

-- Everything before an entry of a sorted list is not above it.
pub IsSorted-before :
    (xs ys : List Entry) (n : Entry)
    → IsSorted (xs ++ (n ∷ ys))
    → All (λ e. e.reverse_so_key ≤ n.reverse_so_key) xs
IsSorted-before [] ys n s = tt
IsSorted-before (x ∷ xs) ys n s = ((All-right _ xs (n ∷ ys) s.0).0, IsSorted-before xs ys n s.1)

-- What stands in front and does not match is skipped.
first_match-skip :
    (p : Entry → Bool) (xs ys : List Entry)
    → All (λ e. p e ≡ false) xs
    → first_match p (xs ++ ys) ≡ first_match p ys
unfolding first_match
first_match-skip p [] ys miss = refl
first_match-skip p (x ∷ xs) ys miss = ground (arith, first_match-skip p xs ys miss.1)
