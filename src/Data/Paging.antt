-- ===== src/Data/Paging.antt =====
-- The pages of a list, as ListUsers of app/iam/service/internal/data/user.go and List of
-- app/iam/service/internal/data/application.go compute them in 32 bits.
use servora_iam.Prelude.{
  ◌≡◌, refl, ap, ℕ, zero, suc, ◌+◌, ◌-◌, ◌*◌, ◌≤◌, ◌<◌, ℤ, pos, word_32, wrap_32, int_of_32, arith,
  List, [], ◌∷◌, ◌++◌, take, drop, length,
}

-- int((page - 1) * pageSize)
unfoldable pub offset_of : (page page_size : ℕ) → ℤ
offset_of page page_size = int_of_32 (wrap_32 (wrap_32 (page + (word_32 - 1)) * page_size))

-- int(pageSize)
unfoldable pub limit_of : (page_size : ℕ) → ℤ
limit_of page_size = int_of_32 page_size

wrap_32_small : (n : ℕ) → n < word_32 → wrap_32 n ≡ n
unfolding wrap_32
wrap_32_small n h = omega arith

wrap_32_pred : (n : ℕ) → suc n < word_32 → wrap_32 (suc n + (word_32 - 1)) ≡ n
unfolding wrap_32
wrap_32_pred n h = omega arith

pub limit_of_small :
    (page_size : ℕ) → page_size < 2_147_483_648 → limit_of page_size ≡ pos page_size
unfolding limit_of int_of_32
limit_of_small page_size h = ground arith

-- Below 2^31 the offset of a page is what comes before it.
pub offset_of_small :
    (n page_size : ℕ)
    → suc n < word_32
    → n * page_size < 2_147_483_648
    → offset_of (suc n) page_size ≡ pos (n * page_size)
unfolding offset_of int_of_32 limit_of
offset_of_small n page_size few small =
    rw (wrap_32_pred n few, wrap_32_small (n * page_size) (omega arith))
      (limit_of_small (n * page_size) small)

pub take-append_page :
    {A : Type 0} (n m : ℕ) (xs : List A) → take n xs ++ take m (drop n xs) ≡ take (n + m) xs
take-append_page zero m xs = let same : 0 + m ≡ m = omega arith in rw same refl
take-append_page (suc n) zero [] = let same : suc n + 0 ≡ suc n = omega arith in rw same refl
take-append_page (suc n) (suc m) [] =
    let same : suc n + suc m ≡ suc (n + suc m) = omega arith in rw same refl
take-append_page (suc n) m (x ∷ xs) =
    let same : suc n + m ≡ suc (n + m) = omega arith in
    rw same (ap (λ ys. x ∷ ys) (take-append_page n m xs))

pub take_all : {A : Type 0} (n : ℕ) (xs : List A) → length xs ≤ n → take n xs ≡ xs
take_all zero [] h = refl
take_all (suc n) [] h = refl
take_all zero (x ∷ xs) h = absurd (omega arith)
take_all (suc n) (x ∷ xs) h = ap (λ ys. x ∷ ys) (take_all n xs (omega arith))
