-- ===== src/Ring/Queue.antt =====
-- Rings as queues of bounded length.
use sys_slp_client.Base.{
  ℕ, suc, ◌+◌, ◌-◌, ◌%◌, ◌≤◌, ◌<◌, ◌≡◌, refl, ap, ap₂, sym, ◌∙◌, List, [], ◌∷◌, ◌++◌, get_or,
  length, arith, drop, leb, if◌then◌else◌, Bool-cases, inl, inr,
}
use sys_slp_client.Ring.{Ring, modify, advance, make_room, append, push_drop_oldest, front, clear}
use sys_slp_client.Ring.Window.{
  window, length-window, window_congr, window_snoc, window_first, window-modify, length-modify,
  get_or-modify_self,
}
use native.Mathlib.Nat.{mod-mod, mod-lt, mod-eq_of_lt, mod-add-mod}

-- The indices are in range and agree with the count.
pub record IsValid {ℓ} {A : Type ℓ} (size : ℕ) (r : Ring A) : Type 0 where
  pub storage : length r.slots ≡ size
  pub some_room : 0 < size
  pub head_in : r.head < size
  pub tail_at : r.tail ≡ (r.head + r.count) % size
  pub count_le : r.count ≤ size

-- A queue of at most `size` entries, before one is added.
abbrev pub bounded {ℓ} : {A : Type ℓ} → ℕ → List A → List A
bounded size q = if leb size (length q) then drop 1 q else q

module _ {ℓ} {A : Type ℓ} (size : ℕ) (spare : A) where
  -- Oldest first.
  abbrev pub contents : Ring A → List A
  contents r = window size spare r.slots r.head r.count

  pub length-contents : (r : Ring A) → length (contents r) ≡ r.count
  length-contents r = length-window size spare r.slots r.head r.count

  pub tail_in : (r : Ring A) → IsValid size r → r.tail < length r.slots
  tail_in r v = omega (arith, v.storage, v.tail_at, mod-lt (r.head + r.count) v.some_room)

  pub advance-IsValid : (r : Ring A) → IsValid size r → 0 < r.count → IsValid size (advance size r)
  unfolding advance
  advance-IsValid r v h = record {
    storage = v.storage;
    some_room = v.some_room;
    head_in = mod-lt (r.head + 1) v.some_room;
    tail_at =
        v.tail_at
        ∙ sym (mod-add-mod (r.head + 1) size (r.count - 1) ∙ ap (λ k. k % size) (omega arith));
    count_le = omega arith;
  }

  -- Dropping the oldest entry.
  pub contents-advance :
      (r : Ring A) → 0 < r.count → contents (advance size r) ≡ drop 1 (contents r)
  unfolding advance
  contents-advance r h =
      window_congr size spare r.slots ((r.head + 1) % size) (r.head + 1) (r.count - 1)
        (mod-mod (r.head + 1) size)
      ∙ sym (ap (drop 1) (window_first size spare r.slots r.head r.count h))

  -- The entry at the read index is the oldest one.
  pub contents-front :
      (r : Ring A)
      → IsValid size r
      → 0 < r.count
      → contents r ≡ front spare r ∷ contents (advance size r)
  unfolding advance
  contents-front r v h =
      window_first size spare r.slots r.head r.count h
      ∙ ap₂ ◌∷◌ (ap (λ k. get_or r.slots k spare) (mod-eq_of_lt v.head_in)) (
          sym (
            window_congr size spare r.slots ((r.head + 1) % size) (r.head + 1) (r.count - 1)
              (mod-mod (r.head + 1) size)))

  pub append-IsValid :
      (write : A → A) (r : Ring A)
      → IsValid size r
      → r.count < size
      → IsValid size (append size write r)
  unfolding append
  append-IsValid write r v h = record {
    storage = length-modify r.slots r.tail write ∙ v.storage;
    some_room = v.some_room;
    head_in = v.head_in;
    tail_at =
        ap (λ k. (k + 1) % size) v.tail_at
        ∙ mod-add-mod (r.head + r.count) size 1
        ∙ ap (λ k. k % size) (omega arith);
    count_le = omega arith;
  }

  -- With room, the written slot is the new last entry.
  pub contents-append :
      (write : A → A) (r : Ring A)
      → IsValid size r
      → r.count < size
      → contents (append size write r) ≡ contents r ++ write (get_or r.slots r.tail spare) ∷ []
  unfolding append
  contents-append write r v h =
      let slots : List A = modify r.slots r.tail write in
      ap (window size spare slots r.head) {y = suc r.count} (omega arith)
      ∙ window_snoc size spare slots r.head r.count
      ∙ ap₂ (λ q x. q ++ x ∷ [])
          (ap (λ k. window size spare (modify r.slots k write) r.head r.count) v.tail_at
            ∙ window-modify size spare r.slots r.head r.count r.count write (omega arith) h)
          (ap (λ k. get_or slots k spare) (sym v.tail_at)
            ∙ get_or-modify_self r.slots r.tail write spare (tail_in r v))

  make_room-IsValid : (r : Ring A) → IsValid size r → IsValid size (make_room size r)
  unfolding make_room
  make_room-IsValid r v = elim (Bool-cases (leb size r.count)) [
    | inl full ↦ rw full (advance-IsValid r v (ground arith))
    | inr room ↦ rw room v
  ]

  make_room_count : (r : Ring A) → IsValid size r → (make_room size r).count < size
  unfolding make_room advance
  make_room_count r v = ground arith

  contents-make_room :
      (r : Ring A) → IsValid size r → contents (make_room size r) ≡ bounded size (contents r)
  unfolding make_room
  contents-make_room r v = elim (Bool-cases (leb size r.count)) [
    | inl full ↦ rw (full, length-contents r, full) (contents-advance r (ground arith))
    | inr room ↦ rw (room, length-contents r, room)
  ]

  tail-make_room : (r : Ring A) → (make_room size r).tail ≡ r.tail
  unfolding make_room advance
  tail-make_room r = ground arith

  slots-make_room : (r : Ring A) → (make_room size r).slots ≡ r.slots
  unfolding make_room advance
  slots-make_room r = ground arith

  -- A push keeps the ring valid, whatever is written.
  pub push_drop_oldest-IsValid :
      (write : A → A) (r : Ring A) → IsValid size r → IsValid size (push_drop_oldest size write r)
  unfolding push_drop_oldest
  push_drop_oldest-IsValid write r v =
      append-IsValid write (make_room size r) (make_room-IsValid r v) (make_room_count r v)

  -- A push adds the written slot at the end, after dropping the oldest entry of a full ring.
  pub contents-push_drop_oldest :
      (write : A → A) (r : Ring A)
      → IsValid size r
      → contents (push_drop_oldest size write r)
        ≡ bounded size (contents r) ++ write (get_or r.slots r.tail spare) ∷ []
  unfolding push_drop_oldest
  contents-push_drop_oldest write r v =
      contents-append write (make_room size r) (make_room-IsValid r v) (make_room_count r v)
      ∙ ap₂ (λ q x. q ++ write x ∷ []) (contents-make_room r v)
          (ap₂ (λ s t. get_or s t spare) (slots-make_room r) (tail-make_room r))

  pub clear-IsValid : (r : Ring A) → IsValid size r → IsValid size (clear r)
  unfolding clear
  clear-IsValid r v = record {
    storage = v.storage;
    some_room = v.some_room;
    head_in = v.some_room;
    tail_at = sym (mod-eq_of_lt v.some_room);
    count_le = omega arith;
  }

  pub contents-clear : (r : Ring A) → contents (clear r) ≡ []
  unfolding clear
  contents-clear r = refl

  pub slots-push_drop_oldest :
      (write : A → A) (r : Ring A)
      → (push_drop_oldest size write r).slots ≡ modify r.slots r.tail write
  unfolding push_drop_oldest
  slots-push_drop_oldest write r =
      ap₂ (λ xs i. modify xs i write) (slots-make_room r) (tail-make_room r)

  pub slots-advance : (r : Ring A) → (advance size r).slots ≡ r.slots
  unfolding advance
  slots-advance r = refl
