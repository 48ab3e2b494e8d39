-- ===== src/Tunnel/Storage.antt =====
-- The buffers of the reassembly table.
use sys_slp_client.Base.{
  ℕ, zero, suc, ◌+◌, ◌-◌, ◌*◌, ◌≤◌, ◌<◌, ◌≡◌, inl, inr, refl, ap, ◌∙◌, Bool, true, false, not, ◌&&◌,
  ◌||◌, Option, none, some, List, [], ◌∷◌, ◌++◌, map, length, length-map, length-append,
  length-take, length-drop, length-replicate, get_or, take, drop, u8, bit_and, ◌^◌, ltb, ◌==◌,
  if◌then◌else◌, arith, All, All-get_or, All-replicate, Bool-cases, Option-cases,
}
use sys_slp_client.Ring.{modify}
use sys_slp_client.Ring.Window.{length-modify, All-modify}
use sys_slp_client.Tunnel.Codec.{slp_mtu}
use sys_slp_client.Tunnel.Reassembly.{
  FragEntry, Fragment, int64_max, frag_timeout_ticks, zero_entry, frag_data_size, max_total_parts,
  max_frag_entries, expire, prepared, find_held, find_reuse, reuse_entry, fresh_entry,
  find_frag_entry, copy_at, write_len, fix_geometry, write_part, complete, rebuilt_size, store_part,
  store_at, on_parsed, on_frag,
}
use sys_slp_client.Tunnel.Guards.{Fits, parse_frag-Fits}

-- An entry with all of its storage.
pub record IsEntry (e : FragEntry) : Type 0 where
  pub whole : length e.buffer ≡ frag_data_size
  pub slots : length e.lens ≡ max_total_parts
  pub stride : e.pmtu ≤ slp_mtu
  pub lens : All (λ l. l ≤ slp_mtu) e.lens

abbrev pub IsTable : List FragEntry → Type 0
IsTable es = (length es ≡ max_frag_entries) × All IsEntry es

pub zero_entry-IsEntry : IsEntry zero_entry
zero_entry-IsEntry = record {
  whole = length-replicate frag_data_size (let z : ℕ = 0 in z);
  slots = refl;
  stride = omega arith;
  lens = All-replicate (λ l. l ≤ slp_mtu) max_total_parts 0 (omega arith);
}

-- No more is written than fits: a copy within the buffer leaves its size.
pub length-copy_at :
    (buffer : List ℕ) (off : ℕ) (bytes : List ℕ)
    → off + length bytes ≤ length buffer
    → length (copy_at buffer off bytes) ≡ length buffer
unfolding copy_at
length-copy_at buffer off bytes h =
    length-append (take off buffer ++ bytes) (drop (off + length bytes) buffer)
    ∙ omega (
      arith,
      length-append (take off buffer) bytes,
      length-take off buffer,
      length-drop (off + length bytes) buffer,
    )

-- Where a part ends, in the buffer.
pub part_in_buffer : (f : Fragment) → Fits f → f.part * f.pmtu + length f.chunk ≤ frag_data_size
part_in_buffer f v = grind (arith, v.in_total, v.few, v.stride, v.short)

-- A length within the list leaves its size.
length-write_len : (ls : List ℕ) (i v : ℕ) → i < length ls → length (write_len ls i v) ≡ length ls
unfolding write_len
length-write_len [] i v h = absurd (omega (arith, h))
length-write_len (l ∷ ls) zero v h = refl
length-write_len (l ∷ ls) (suc i) v h = ap suc (length-write_len ls i v (omega (arith, h)))

All-write_len :
    (P : ℕ → Type 0) (ls : List ℕ) (i v : ℕ)
    → i < length ls
    → P v
    → All P ls
    → All P (write_len ls i v)
unfolding write_len
All-write_len P [] i v h p a = absurd (omega (arith, h))
All-write_len P (l ∷ ls) zero v h p a = (p, a.1)
All-write_len P (l ∷ ls) (suc i) v h p a = (a.0, All-write_len P ls i v (omega (arith, h)) p a.1)

fix_geometry-IsEntry :
    (f : Fragment) (e : FragEntry) → Fits f → IsEntry e → IsEntry (fix_geometry f e)
unfolding fix_geometry
fix_geometry-IsEntry f e v w = elim (Bool-cases (e.seen == 0)) [
  | inl first ↦
      rw first (record { whole = w.whole; slots = w.slots; stride = v.stride; lens = w.lens })
  | inr later ↦ rw later w
]

write_part-IsEntry :
    (later : ℕ) (f : Fragment) (e : FragEntry) → Fits f → IsEntry e → IsEntry (write_part later f e)
unfolding write_part
write_part-IsEntry later f e v w = record {
  whole =
      length-copy_at e.buffer (f.part * f.pmtu) f.chunk (omega (arith, part_in_buffer f v, w.whole))
      ∙ w.whole;
  slots = length-write_len e.lens f.part (length f.chunk) in_lens ∙ w.slots;
  stride = w.stride;
  lens =
      All-write_len (λ l. l ≤ slp_mtu) e.lens f.part (length f.chunk) in_lens
        (omega (arith, v.short, v.stride)) w.lens;
}
  where
    in_lens : f.part < length e.lens
    in_lens = omega (arith, v.in_total, v.few, w.slots)

-- The size of a rebuilt packet is within the buffer, so the check before it is handed on never fails.
pub rebuilt_size-le :
    (f : Fragment) (e : FragEntry) → Fits f → IsEntry e → rebuilt_size f e ≤ frag_data_size
unfolding rebuilt_size
rebuilt_size-le f e v w = grind (
  arith,
  v.few,
  v.stride,
  v.in_total,
  All-get_or (λ l. l ≤ slp_mtu) e.lens (f.total - 1) 0 w.lens (omega arith),
)

complete-IsEntry : (f : Fragment) (e : FragEntry) → IsEntry e → IsEntry (complete f e).0
unfolding complete
complete-IsEntry f e w = elim (Bool-cases (e.seen == u8 (2 ^ f.total - 1))) [
  | inl full ↦
      rw full (record { whole = w.whole; slots = w.slots; stride = w.stride; lens = w.lens })
  | inr partial ↦ rw partial w
]

store_part_lem :
    (later : ℕ) (f : Fragment) (e : FragEntry)
    → store_part later f e ≡ (
        if not (e.seen == 0) && (not (e.pmtu == f.pmtu) || not (e.total_parts == f.total))
        then (e, none)
        else if not (bit_and (fix_geometry f e).seen (2 ^ f.part) == 0)
        then (fix_geometry f e, none)
        else complete f (write_part later f (fix_geometry f e)))
unfolding store_part
store_part_lem later f e = refl

store_part-IsEntry :
    (later : ℕ) (f : Fragment) (e : FragEntry)
    → Fits f
    → IsEntry e
    → IsEntry (store_part later f e).0
store_part-IsEntry later f e v w =
    let w' = fix_geometry-IsEntry f e v w in
    rw (store_part_lem later f e) (
      branches (not (e.seen == 0) && (not (e.pmtu == f.pmtu) || not (e.total_parts == f.total)))
        (not (bit_and (fix_geometry f e).seen (2 ^ f.part) == 0)) w'
        (complete-IsEntry f (write_part later f (fix_geometry f e))
          (write_part-IsEntry later f (fix_geometry f e) v w')))
  where
    branches :
        (a b : Bool)
        → IsEntry (fix_geometry f e)
        → IsEntry (complete f (write_part later f (fix_geometry f e))).0
        → IsEntry
            (if a
              then (e, none)
              else if b
              then (fix_geometry f e, none)
              else complete f (write_part later f (fix_geometry f e))).0
    branches true b g c = w
    branches false true g c = g
    branches false false g c = c

expire-IsEntry : (now : ℕ) (e : FragEntry) → IsEntry e → IsEntry (expire now e)
unfolding expire
expire-IsEntry now e w =
    elim (Bool-cases (e.active && ltb frag_timeout_ticks (now - e.last_tick))) [
      | inl old ↦
          rw old (record { whole = w.whole; slots = w.slots; stride = w.stride; lens = w.lens })
      | inr live ↦ rw live w
    ]

All-map {ℓ κ} :
    {A : Type ℓ} (P : A → Type κ) (f : A → A) (xs : List A)
    → ((x : A) → P x → P (f x))
    → All P xs
    → All P (map f xs)
All-map P f [] h a = tt
All-map P f (x ∷ xs) h a = (h x a.0, All-map P f xs h a.1)

fresh_entry-IsEntry : (now src id : ℕ) → IsEntry (fresh_entry now src id)
unfolding fresh_entry
fresh_entry-IsEntry now src id = record {
  whole = length-replicate frag_data_size (let z : ℕ = 0 in z);
  slots = refl;
  stride = omega arith;
  lens = All-replicate (λ l. l ≤ slp_mtu) max_total_parts 0 (omega arith);
}

put-IsTable :
    (es : List FragEntry) (i : ℕ) (e : FragEntry)
    → IsTable es
    → IsEntry e
    → IsTable (modify es i (λ _. e))
put-IsTable es i e v w =
    (length-modify es i (λ _. e) ∙ v.0, All-modify IsEntry es i (λ _. e) (λ x _. w) v.1)

reuse_entry-IsTable :
    (now src id : ℕ) (o : Option ℕ) (es : List FragEntry)
    → IsTable es
    → IsTable (reuse_entry now src id o es)
unfolding reuse_entry
reuse_entry-IsTable now src id none es v = v
reuse_entry-IsTable now src id (some i) es v =
    put-IsTable es i (fresh_entry now src id) v (fresh_entry-IsEntry now src id)

prepared-IsTable :
    (now src id : ℕ) (es : List FragEntry) → IsTable es → IsTable (prepared now src id es)
unfolding prepared
prepared-IsTable now src id es v = elim (Option-cases (find_held src id 0 es)) [
  | inl absent ↦
      rw (prepared, absent) (reuse_entry-IsTable now src id (find_reuse 0 int64_max none es) es v)
  | inr (i, held) ↦ rw (prepared, held) v
]

find_frag_entry-IsTable :
    (now src id : ℕ) (es : List FragEntry) → IsTable es → IsTable (find_frag_entry now src id es).1
unfolding find_frag_entry
find_frag_entry-IsTable now src id es v =
    prepared-IsTable now src id (map (expire now) es)
      (length-map (expire now) es ∙ v.0, All-map IsEntry (expire now) es (expire-IsEntry now) v.1)

store_at-IsTable :
    (later : ℕ) (f : Fragment) (found : Option ℕ × List FragEntry)
    → Fits f
    → IsTable found.1
    → IsTable (store_at later f found).0
unfolding store_at
store_at-IsTable later f (none, es) v w = w
store_at-IsTable later f (some i, es) v w =
    put-IsTable es i (store_part later f (get_or es i zero_entry)).0 w (
      store_part-IsEntry later f (get_or es i zero_entry) v
        (All-get_or IsEntry es i zero_entry w.1 zero_entry-IsEntry))

-- Whatever bytes arrive as a fragment, and whenever: every write stays within the entry's 5600-byte buffer and its 4 lengths, where
-- one outside would show as a longer list, so a well-formed table stays well formed.
pub on_frag-IsTable :
    (now later : ℕ) (payload : List ℕ) (es : List FragEntry)
    → IsTable es
    → IsTable (on_frag now later payload es).0
unfolding on_frag on_parsed
on_frag-IsTable now later payload es v = elim (parse_frag-Fits payload) [
  | inl rejected ↦ rw rejected v
  | inr (f, read, fits) ↦ rw read (
      store_at-IsTable later f (find_frag_entry now f.src f.id es) fits
        (find_frag_entry-IsTable now f.src f.id es v))
]
