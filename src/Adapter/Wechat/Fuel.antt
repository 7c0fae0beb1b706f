-- ===== src/Adapter/Wechat/Fuel.antt =====
-- The fuel of the mention scanner of the WeChat adapter is enough.
use espur.Base.{
  ℕ, suc, zero, ◌≤◌, ◌≡◌, refl, ap, Bool, true, false, ◌&&◌, ◌||◌, [], ◌∷◌, none, some, Bytes, ◌==◌,
  length, if_rule, arith,
}
use espur.Adapter.Wechat.{nickname, trailer, without_space, is_blank, at_space, strip_trailers}

length-nickname : (s : Bytes) → length (nickname s).1 ≤ length s
unfolding nickname
length-nickname [] = omega arith
length-nickname (c ∷ s) =
    if_rule (λ (r : ℕ × Bytes). length r.1 ≤ suc (length s)) (is_blank c || at_space (c ∷ s))
      (λ _. omega arith) (λ _. omega (arith, length-nickname s))

length-without_space : (s : Bytes) → length (without_space s) ≤ length s
length-without_space [] = omega arith
length-without_space (a ∷ []) = omega arith
length-without_space (a ∷ b ∷ []) = omega arith
length-without_space (a ∷ b ∷ c ∷ s) =
    if_rule (λ (r : Bytes). length r ≤ suc (suc (suc (length s))))
      (a == 0xe2 && b == 0x80 && c == 0x85) (λ _. omega arith) (λ _. omega arith)

-- The scan for mentions never stops for want of fuel: with at least as many steps as there are bytes,
-- a larger number of steps gives the same.
pub strip_trailers_fuel :
    (n m : ℕ) (s : Bytes) → length s ≤ n → n ≤ m → strip_trailers m s ≡ strip_trailers n s
unfolding strip_trailers trailer
strip_trailers_fuel zero zero [] h le = refl
strip_trailers_fuel zero (suc m) [] h le = refl
strip_trailers_fuel zero m (c ∷ s) h le = absurd (omega (arith, h))
strip_trailers_fuel (suc n) zero s h le = absurd (omega (arith, le))
strip_trailers_fuel (suc n) (suc m) [] h le = refl
strip_trailers_fuel (suc n) (suc m) (c ∷ s) h le =
    scanned (c == 0x40) (nickname s) (length-nickname s)
      (λ t short. strip_trailers_fuel n m t short (omega (arith, le)))
  where
    scanned :
        (b : Bool) (r : ℕ × Bytes)
        → length r.1 ≤ length s
        → ((t : Bytes) → length t ≤ n → strip_trailers m t ≡ strip_trailers n t)
        → (elim b [
          | false ↦ c ∷ strip_trailers m s
          | true ↦ elim (trailer r) [
            | none ↦ c ∷ strip_trailers m s
            | some rest ↦ strip_trailers m rest
          ]
        ])
          ≡ (elim b [
            | false ↦ c ∷ strip_trailers n s
            | true ↦ elim (trailer r) [
              | none ↦ c ∷ strip_trailers n s
              | some rest ↦ strip_trailers n rest
            ]
          ])
    scanned false r short ih = ap (◌∷◌ c) (ih s (omega (arith, h)))
    scanned true (zero, t) short ih = ap (◌∷◌ c) (ih s (omega (arith, h)))
    scanned true (suc k, t) short ih =
        ih (without_space t) (omega (arith, h, short, length-without_space t))
