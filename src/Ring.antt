-- ===== src/Ring.antt =====
-- The fixed-size rings of proxy_socket.{hpp,cpp} (m_rx_ring) and proxy_socket_manager.{hpp,cpp}
-- (m_pending_ring): slots that are written in place, two indices and a count. Both drop the oldest
-- entry when they are full. The size is an argument.
pub mod Window
pub mod Queue
use sys_slp_client.Base.{ℕ, zero, suc, ◌+◌, ◌-◌, ◌%◌, List, [], ◌∷◌, leb, if◌then◌else◌, get_or}

pub record Ring {ℓ} (A : Type ℓ) : Type ℓ where
  pub slots : List A
  pub head : ℕ
  pub tail : ℕ
  pub count : ℕ

module _ {ℓ} {A : Type ℓ} where
  -- A slot written in place.
  abbrev pub modify : List A → ℕ → (A → A) → List A
  modify [] i f = []
  modify (x ∷ xs) zero f = f x ∷ xs
  modify (x ∷ xs) (suc i) f = x ∷ modify xs i f

  -- `head = (head + 1) % size; count--`.
  unfoldable pub advance : ℕ → Ring A → Ring A
  advance size r = record r { head = (r.head + 1) % size; count = r.count - 1 }

  -- Room for one more entry: the oldest is dropped from a full ring.
  pub make_room : ℕ → Ring A → Ring A
  unfolding advance
  make_room size r = if leb size r.count then advance size r else r

  -- The tail slot is written in place.
  pub append : ℕ → (A → A) → Ring A → Ring A
  append size write r = record r {
    slots = modify r.slots r.tail write;
    tail = (r.tail + 1) % size;
    count = r.count + 1;
  }

  unfoldable pub push_drop_oldest : ℕ → (A → A) → Ring A → Ring A
  unfolding make_room append
  push_drop_oldest size write r = append size write (make_room size r)

  -- The entry at the read index; `spare` is never read while the indices are in range.
  abbrev pub front : A → Ring A → A
  front spare r = get_or r.slots r.head spare

  -- Both indices and the count go back to 0; the slots stay.
  unfoldable pub clear : Ring A → Ring A
  clear r = record r { head = 0; tail = 0; count = 0 }
