-- ===== src/Gguf/Layout.antt =====
-- The layout that `ds3_gguf_open` computes: where the tensor data starts, and the size of a tensor.
use qw.Base.{
  ℕ, ◌+◌, ◌-◌, ◌*◌, ◌/◌, ◌%◌, ◌^◌, ◌≤◌, ◌<◌, ltb, ◌==◌, ==_iff, ◌≡◌, ap, ◌∙◌, sym, arith,
  Bool-cases, inl, inr,
}
use native.Mathlib.Nat.{mod-lt, mod-eq_of_lt, mod_self, mod-add-mod, div-add-mod', div-one, add-mul}
use mathlib.Core.Path.{subst}
use qw.Gguf.Open.{size_of, data_offset}

-- The tensor data start at the least multiple of the alignment that is not before the tensor infos'
-- end, where that does not leave the uint64_t.
pub data_offset_least :
    (alignment tensor_info_end : ℕ)
    → 0 < alignment
    → tensor_info_end + alignment ≤ 2 ^ 64
    → (data_offset alignment tensor_info_end % alignment ≡ 0)
      × (tensor_info_end ≤ data_offset alignment tensor_info_end)
      × (data_offset alignment tensor_info_end < tensor_info_end + alignment)
unfolding data_offset
data_offset_least a e positive fits =
    let small = mod-lt e positive in
    elim (Bool-cases (e % a == 0)) [
      | inl exact ↦
          let r : e % a ≡ 0 = (==_iff (e % a) 0).0 exact in
          let none_left : (a - 0) % a ≡ 0 = ap (λ k. k % a) (omega arith) ∙ mod_self a in
          let here : (e + (a - e % a) % a) % 2 ^ 64 ≡ e =
            ap (λ k. (e + (a - k) % a) % 2 ^ 64) r
            ∙ ap (λ k. (e + k) % 2 ^ 64) none_left
            ∙ omega arith in
          rw here (r, omega arith, omega arith)
      | inr inexact ↦
          let more : 0 < e % a = ground arith in
          let left : (a - e % a) % a ≡ a - e % a = mod-eq_of_lt (omega arith) in
          let here : (e + (a - e % a) % a) % 2 ^ 64 ≡ e + (a - e % a) =
            ap (λ k. (e + k) % 2 ^ 64) left ∙ omega arith in
          let whole : e % a + (a - e % a) ≡ a = omega arith in
          rw here (
            sym (mod-add-mod e a (a - e % a)) ∙ ap (λ k. k % a) whole ∙ mod_self a,
            omega arith,
            omega arith,
          )
    ]

-- For a positive block size, and where the whole blocks and one more do not leave the uint64_t, the size
-- of a tensor is that of the least number of blocks that hold its elements.
pub size_of_least :
    (n type_size block_size : ℕ)
    → 0 < block_size
    → (n / block_size + 1) * type_size < 2 ^ 64
    → (blocks : ℕ) × (size_of n (type_size, block_size) ≡ blocks * type_size)
      × (n ≤ blocks * block_size)
      × (blocks * block_size < n + block_size)
unfolding size_of
size_of_least n t b positive fits =
    let split : (n / b + 1) * t ≡ n / b * t + t =
      add-mul (n / b) 1 t ∙ ap (λ k. n / b * t + k) (omega arith) in
    let fit' : n / b * t + t < 2 ^ 64 = rw split at fits in
    let whole : n / b * t % 2 ^ 64 ≡ n / b * t = mod-eq_of_lt (omega arith) in
    let parts = div-add-mod' n b in
    let below = mod-lt n positive in
    elim (Bool-cases (ltb 1 b)) [
      | inl blocks ↦ elim (Bool-cases (n % b == 0)) [
        | inl exact ↦
            let r : n % b ≡ 0 = (==_iff (n % b) 0).0 exact in
            (n / b, rw (blocks, exact) whole, omega arith, omega arith)
        | inr partial ↦
            let more : 0 < n % b = ground arith in
            let one_more : (n / b + 1) * b ≡ n / b * b + b =
              add-mul (n / b) 1 b ∙ ap (λ k. n / b * b + k) (omega arith) in
            (
              n / b + 1,
              rw (blocks, partial)
                  (ap (λ k. (k + t) % 2 ^ 64) whole ∙ mod-eq_of_lt fit' ∙ sym split),
              omega arith,
              omega arith,
            )
      ]
      | inr single ↦
          let one : b ≡ 1 = ground arith in
          let all : n / b ≡ n = ap (λ k. n / k) one ∙ div-one n in
          let total : n * t < 2 ^ 64 = subst (λ k. k * t < 2 ^ 64) all (omega arith) in
          (n, rw single (mod-eq_of_lt total), rw one (omega arith), rw one (omega arith))
    ]
