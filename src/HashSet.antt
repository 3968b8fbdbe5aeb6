-- ===== src/HashSet.antt =====
-- A Go `map[chainhash.Hash]struct{}`: a list with no entry twice. A hash, an array of 32 bytes, is the
-- number that it spells, since the code only compares, copies and stores hashes. The order of the
-- list stands for nothing: the code reads a map through membership and size.
use monetarium_explorer.Prelude.{
  ℕ, suc, ◌+◌, ◌≡◌, refl, Bool, true, false, not, ◌&&◌, ◌||◌, List, [], ◌∷◌, arith, length, ◌==◌,
  if◌then◌else◌, Bool-cases, inl, inr,
}

-- Membership, also in a plain slice of hashes.
unfoldable pub has : ℕ → List ℕ → Bool
has h [] = false
has h (x ∷ xs) = h == x || has h xs

-- `m[h] = struct{}{}`
unfoldable pub insert : ℕ → List ℕ → List ℕ
insert h m = if has h m then m else h ∷ m

-- `delete(m, h)`
unfoldable pub delete : ℕ → List ℕ → List ℕ
delete h [] = []
delete h (x ∷ xs) = if h == x then delete h xs else x ∷ delete h xs

unfoldable pub insert_all : List ℕ → List ℕ → List ℕ
insert_all [] m = m
insert_all (h ∷ hs) m = insert_all hs (insert h m)

unfoldable pub delete_all : List ℕ → List ℕ → List ℕ
delete_all [] m = m
delete_all (h ∷ hs) m = delete_all hs (delete h m)

abbrev pub IsDistinct : List ℕ → Type 0
IsDistinct [] = Unit
IsDistinct (x ∷ xs) = (has x xs ≡ false) × IsDistinct xs

pub has-nil : (h : ℕ) → has h [] ≡ false
unfolding has
has-nil h = refl

pub has-insert : (h x : ℕ) (m : List ℕ) → has h (insert x m) ≡ (h == x || has h m)
unfolding insert has
has-insert h x m = elim (Bool-cases (has x m)) [
  | inl e ↦ rw (e, insert) (ground arith)
  | inr e ↦ rw (e, insert) refl
]

pub has-delete : (h x : ℕ) (m : List ℕ) → has h (delete x m) ≡ (not (h == x) && has h m)
unfolding delete has
has-delete h x [] = ground arith
has-delete h x (y ∷ m) = ground (arith, has-delete h x m)

pub insert-IsDistinct : (x : ℕ) (m : List ℕ) → IsDistinct m → IsDistinct (insert x m)
unfolding insert
insert-IsDistinct x m d = ground arith

pub delete-IsDistinct : (x : ℕ) (m : List ℕ) → IsDistinct m → IsDistinct (delete x m)
unfolding delete
delete-IsDistinct x [] d = tt
delete-IsDistinct x (y ∷ m) d = ground (arith, delete-IsDistinct x m d.1, has-delete y x m)

pub length-insert :
    (x : ℕ) (m : List ℕ) → length (insert x m) ≡ (if has x m then length m else suc (length m))
unfolding insert
length-insert x m = ground arith

pub insert_known : (x : ℕ) (m : List ℕ) → has x m ≡ true → insert x m ≡ m
unfolding insert
insert_known x m e = rw e refl

pub length-insert_new : (x : ℕ) (m : List ℕ) → has x m ≡ false → length (insert x m) ≡ length m + 1
unfolding insert
length-insert_new x m e = rw e (omega arith)

delete_absent : (x : ℕ) (m : List ℕ) → has x m ≡ false → delete x m ≡ m
unfolding delete has
delete_absent x [] e = refl
delete_absent x (y ∷ m) e = ground (arith, delete_absent x m)

pub length-delete :
    (x : ℕ) (m : List ℕ)
    → IsDistinct m
    → length m ≡ (if has x m then suc (length (delete x m)) else length (delete x m))
unfolding delete has
length-delete x [] d = refl
length-delete x (y ∷ m) d = ground (arith, length-delete x m d.1, delete_absent x m)

pub has-insert_all : (h : ℕ) (xs m : List ℕ) → has h (insert_all xs m) ≡ (has h xs || has h m)
unfolding insert_all has
has-insert_all h [] m = refl
has-insert_all h (x ∷ xs) m = ground (arith, has-insert_all h xs (insert x m), has-insert h x m)

pub has-delete_all : (h : ℕ) (xs m : List ℕ) → has h (delete_all xs m) ≡ (not (has h xs) && has h m)
unfolding delete_all has
has-delete_all h [] m = refl
has-delete_all h (x ∷ xs) m = ground (arith, has-delete_all h xs (delete x m), has-delete h x m)

pub insert_all-IsDistinct : (xs m : List ℕ) → IsDistinct m → IsDistinct (insert_all xs m)
unfolding insert_all
insert_all-IsDistinct [] m d = d
insert_all-IsDistinct (x ∷ xs) m d = insert_all-IsDistinct xs (insert x m) (insert-IsDistinct x m d)

pub delete_all-IsDistinct : (xs m : List ℕ) → IsDistinct m → IsDistinct (delete_all xs m)
unfolding delete_all
delete_all-IsDistinct [] m d = d
delete_all-IsDistinct (x ∷ xs) m d = delete_all-IsDistinct xs (delete x m) (delete-IsDistinct x m d)

-- Distinct hashes that are not in the set grow it by their number.
pub length-insert_all :
    (xs m : List ℕ)
    → IsDistinct xs
    → ((h : ℕ) → has h xs ≡ true → has h m ≡ false)
    → length (insert_all xs m) ≡ length m + length xs
unfolding insert_all has
length-insert_all [] m d fresh = omega arith
length-insert_all (x ∷ xs) m d fresh =
    let rest =
      length-insert_all xs (insert x m) d.1
        (λ h e. ground (arith, fresh h, has-insert h x m, d.0)) in
    ground (arith, rest, length-insert x m, fresh x)

-- Distinct hashes that are in the set shrink it by their number.
pub length-delete_all :
    (xs m : List ℕ)
    → IsDistinct xs
    → IsDistinct m
    → ((h : ℕ) → has h xs ≡ true → has h m ≡ true)
    → length (delete_all xs m) + length xs ≡ length m
unfolding delete_all has
length-delete_all [] m d dm live = omega arith
length-delete_all (x ∷ xs) m d dm live =
    let rest =
      length-delete_all xs (delete x m) d.1 (delete-IsDistinct x m dm)
        (λ h e. ground (arith, live h, has-delete h x m, d.0)) in
    ground (arith, rest, length-delete x m dm, live x)
