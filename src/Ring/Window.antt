-- ===== src/Ring/Window.antt =====
-- The entries that a ring's indices span, as a list.
use sys_slp_client.Base.{
  All, ℕ, zero, suc, ◌+◌, ◌-◌, ◌%◌, ◌≤◌, ◌<◌, ◌≡◌, ◌≢◌, ◌⊎◌, inl, inr, refl, sym, ap₂, ap, ◌∙◌,
  List, [], ◌∷◌, ◌++◌, get_or, length, arith,
}
use sys_slp_client.Ring.{modify}
use native.Mathlib.Nat.{add-zero, mod-add-mod, mod-lt, mod-eq_of_lt, mod-eq-sub-mod}
use native.Mathlib.Decide.{dec_lt}

-- One step past the end comes back once.
mod_once :
    (size a k : ℕ)
    → a < size
    → k < size
    → ((a + k < size) × ((a + k) % size ≡ a + k))
      ⊎ ((size ≤ a + k) × ((a + k) % size ≡ a + k - size))
mod_once size a k h l = elim (dec_lt (a + k) size) [
  | yes below ↦ inl (below, mod-eq_of_lt below)
  | no beyond ↦ inr (
    omega arith,
    mod-eq-sub-mod {n = a + k} {m = size} (omega arith)
        ∙ mod-eq_of_lt {n = a + k - size} {m = size} (omega arith),
  )
]

-- Positions less than a whole round apart are different slots.
mod_distinct : (size i j k : ℕ) → j < k → k < size → (i + j) % size ≢ (i + k) % size
mod_distinct size i j k h l e =
    let below : i % size < size = mod-lt i (omega arith) in
    absurd (
      omega (
        arith,
        e,
        mod-add-mod i size j,
        mod-add-mod i size k,
        mod_once size (i % size) j below (omega arith),
        mod_once size (i % size) k below l,
      ))

module _ {ℓ} {A : Type ℓ} where
  pub length-modify : (xs : List A) (i : ℕ) (f : A → A) → length (modify xs i f) ≡ length xs
  length-modify [] i f = refl
  length-modify (x ∷ xs) zero f = refl
  length-modify (x ∷ xs) (suc i) f = ap suc (length-modify xs i f)

  pub get_or-modify_self :
      (xs : List A) (i : ℕ) (f : A → A) (d : A)
      → i < length xs
      → get_or (modify xs i f) i d ≡ f (get_or xs i d)
  get_or-modify_self [] i f d h = absurd (omega arith)
  get_or-modify_self (x ∷ xs) zero f d h = refl
  get_or-modify_self (x ∷ xs) (suc i) f d h = get_or-modify_self xs i f d (omega arith)

  pub get_or-modify_ne :
      (xs : List A) (i j : ℕ) (f : A → A) (d : A)
      → i ≢ j
      → get_or (modify xs i f) j d ≡ get_or xs j d
  get_or-modify_ne [] i j f d h = refl
  get_or-modify_ne (x ∷ xs) zero zero f d h = absurd (h refl)
  get_or-modify_ne (x ∷ xs) zero (suc j) f d h = refl
  get_or-modify_ne (x ∷ xs) (suc i) zero f d h = refl
  get_or-modify_ne (x ∷ xs) (suc i) (suc j) f d h = get_or-modify_ne xs i j f d (λ e. h (ap suc e))

  module _ (size : ℕ) (spare : A) where
    -- `n` entries from position `i` on; positions go round at `size`.
    abbrev pub window : List A → ℕ → ℕ → List A
    window slots i zero = []
    window slots i (suc n) = get_or slots (i % size) spare ∷ window slots (i + 1) n

    pub length-window : (slots : List A) (i n : ℕ) → length (window slots i n) ≡ n
    length-window slots i zero = refl
    length-window slots i (suc n) = ap suc (length-window slots (i + 1) n)

    pub window_first :
        (slots : List A) (i n : ℕ)
        → 0 < n
        → window slots i n ≡ get_or slots (i % size) spare ∷ window slots (i + 1) (n - 1)
    window_first slots i zero h = absurd (omega arith)
    window_first slots i (suc n) h =
        ap (λ k. get_or slots (i % size) spare ∷ window slots (i + 1) k) (omega arith)

    -- Positions that agree up to whole rounds show the same entries.
    pub window_congr :
        (slots : List A) (i j n : ℕ) → i % size ≡ j % size → window slots i n ≡ window slots j n
    window_congr slots i j zero e = refl
    window_congr slots i j (suc n) e = ap₂ ◌∷◌ (ap (λ k. get_or slots k spare) e) (
        window_congr slots (i + 1) (j + 1) n
          (sym (mod-add-mod i size 1) ∙ ap (λ k. (k + 1) % size) e ∙ mod-add-mod j size 1))

    -- One entry more at the end.
    pub window_snoc :
        (slots : List A) (i n : ℕ)
        → window slots i (suc n) ≡ window slots i n ++ get_or slots ((i + n) % size) spare ∷ []
    window_snoc slots i zero = ap (λ k. get_or slots (k % size) spare ∷ []) (omega arith)
    window_snoc slots i (suc n) = ap (◌∷◌ (get_or slots (i % size) spare)) (
        window_snoc slots (i + 1) n
        ∙ ap (λ k. window slots (i + 1) n ++ get_or slots (k % size) spare ∷ []) (omega arith))

    -- A write at a position that is not spanned does not show.
    pub window-modify :
        (slots : List A) (i n k : ℕ) (f : A → A)
        → n ≤ k
        → k < size
        → window (modify slots ((i + k) % size) f) i n ≡ window slots i n
    window-modify slots i zero k f h l = refl
    window-modify slots i (suc n) zero f h l = absurd (omega arith)
    window-modify slots i (suc n) (suc k) f h l =
        ap₂ ◌∷◌
          (get_or-modify_ne slots ((i + suc k) % size) (i % size) f spare (λ e.
            mod_distinct size i 0 (suc k) (omega arith) l
              (ap (λ t. t % size) (add-zero i) ∙ sym e)))
          (ap (λ t. window (modify slots (t % size) f) (i + 1) n) shifted
            ∙ window-modify slots (i + 1) n k f (omega arith) (omega arith))
      where
        shifted : i + suc k ≡ i + 1 + k
        shifted = omega arith

pub All-modify {ℓ κ} :
    {A : Type ℓ} (P : A → Type κ) (xs : List A) (i : ℕ) (f : A → A)
    → ((x : A) → P x → P (f x))
    → All P xs
    → All P (modify xs i f)
All-modify P [] i f keep h = h
All-modify P (x ∷ xs) zero f keep h = (keep x h.0, h.1)
All-modify P (x ∷ xs) (suc i) f keep h = (h.0, All-modify P xs i f keep h.1)
