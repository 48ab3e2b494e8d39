-- ===== src/Client/Spelling.antt =====
-- The text that dns_encode_name puts into the labels.
use sys_slp_client.Base.{
  ℕ, ◌+◌, ◌≤◌, ◌≡◌, refl, sym, ap, ◌∙◌, subst, true, false, ◌==◌, ltb, Option, none, some, inl, inr,
  List, [], ◌∷◌, ◌++◌, length, u8, arith, Bool, if◌then◌else◌, All, append-nil, append_assoc, ==→eq,
  Bool-cases,
}
use sys_slp_client.Client.Dns.{label_fits, put_label, end_name, encode_from}

-- A character of a label.
abbrev pub Plain : ℕ → Type 0
Plain c = (c == b'.') ≡ false

-- The wire holds the text: each label has the characters up to the next dot, and no dot stands within one.
pub data Spells : List ℕ → List ℕ → Type 0 where
  root_only : Spells [] (0 ∷ [])
  last_label :
      (n : ℕ) (bytes : List ℕ)
      → n ≡ length bytes
      → 1 ≤ n
      → n ≤ 63
      → All Plain bytes
      → Spells bytes (n ∷ bytes ++ 0 ∷ [])
  label_and_dot :
      (n : ℕ) (bytes host wire : List ℕ)
      → n ≡ length bytes
      → 1 ≤ n
      → n ≤ 63
      → All Plain bytes
      → Spells host wire
      → Spells (bytes ++ b'.' ∷ host) (n ∷ bytes ++ wire)

pub fits_bounds :
    (cap pos : ℕ) (l : List ℕ)
    → label_fits cap pos l ≡ true
    → (1 ≤ length l) × (length l ≤ 63) × (pos + length l + 2 ≤ cap)
unfolding label_fits
fits_bounds cap pos l h = ground arith

put_label-some :
    (cap pos : ℕ) (l out : List ℕ) (rest : Option (List ℕ))
    → put_label (label_fits cap pos l) l rest ≡ some out
    → (r : List ℕ) × (rest ≡ some r)
      × (u8 (length l) ∷ l ++ r ≡ out)
      × (1 ≤ length l)
      × (length l ≤ 63)
unfolding put_label
put_label-some cap pos l out rest e = by_test (label_fits cap pos l) (fits_bounds cap pos l) rest e
  where
    by_test :
        (fits : Bool)
        → (fits ≡ true → (1 ≤ length l) × (length l ≤ 63) × (pos + length l + 2 ≤ cap))
        → (o : Option (List ℕ)) → put_label fits l o ≡ some out
        → (r : List ℕ) × (o ≡ some r)
          × (u8 (length l) ∷ l ++ r ≡ out)
          × (1 ≤ length l)
          × (length l ≤ 63)
    by_test true b none h = absurd (cc h)
    by_test true b (some r) h = (r, refl, cc h, (b refl).0, (b refl).1)
    by_test false b none h = absurd (cc h)
    by_test false b (some r) h = absurd (cc h)

end_name-some : (cap pos : ℕ) (out : List ℕ) → end_name cap pos ≡ some out → 0 ∷ [] ≡ out
unfolding end_name
end_name-some cap pos out e = by_test (ltb cap (pos + 2)) e
  where
    by_test : (over : Bool) → (if over then none else some (0 ∷ [])) ≡ some out → 0 ∷ [] ≡ out
    by_test true h = absurd (cc h)
    by_test false h = cc h

All-snoc : (l : List ℕ) (c : ℕ) → All Plain l → Plain c → All Plain (l ++ c ∷ [])
All-snoc [] c a p = (p, tt)
All-snoc (x ∷ l) c a p = (a.0, All-snoc l c a.1 p)

pub encode_from-Spells :
    (cap pos : ℕ) (l cs out : List ℕ)
    → All Plain l
    → encode_from cap pos l cs ≡ some out
    → Spells (l ++ cs) out
unfolding encode_from
encode_from-Spells cap pos [] [] out a e = subst (Spells []) (end_name-some cap pos out e) root_only
encode_from-Spells cap pos (x ∷ l) [] out a e =
    let p = put_label-some cap pos (x ∷ l) out (end_name cap (pos + (length (x ∷ l) + 1))) e in
    subst (λ h. Spells h out) (sym (append-nil (x ∷ l)))
      (subst (Spells (x ∷ l))
        (ap (λ r. u8 (length (x ∷ l)) ∷ (x ∷ l) ++ r)
            (end_name-some cap (pos + (length (x ∷ l) + 1)) p.0 p.1)
          ∙ p.2)
        (last_label (u8 (length (x ∷ l))) (x ∷ l) (omega (arith, p.4, p.3))
          (omega (arith, p.3, p.4)) (omega (arith, p.3, p.4)) a))
encode_from-Spells cap pos l (c ∷ cs) out a e = elim (Bool-cases (c == b'.')) [
  | inl dot ↦
      let p =
        put_label-some cap pos l out (encode_from cap (pos + (length l + 1)) [] cs)
          (sym (at_dot dot) ∙ e) in
      subst (λ h. Spells (l ++ h ∷ cs) out) (sym (==→eq c b'.' dot))
        (subst (Spells (l ++ b'.' ∷ cs)) p.2 (
          label_and_dot (u8 (length l)) l cs p.0 (omega (arith, p.4, p.3)) (omega (arith, p.3, p.4))
            (omega (arith, p.3, p.4)) a
            (encode_from-Spells cap (pos + (length l + 1)) [] cs p.0 tt p.1)))
  | inr other ↦
      subst (λ h. Spells h out) (append_assoc l (c ∷ []) cs)
        (encode_from-Spells cap pos (l ++ c ∷ []) cs out (All-snoc l c a other)
          (sym (in_label other) ∙ e))
]
  where
    at_dot :
        c == b'.' ≡ true
        → encode_from cap pos l (c ∷ cs)
          ≡ put_label (label_fits cap pos l) l (encode_from cap (pos + (length l + 1)) [] cs)
    at_dot h = rw h refl

    in_label :
        c == b'.' ≡ false → encode_from cap pos l (c ∷ cs) ≡ encode_from cap pos (l ++ c ∷ []) cs
    in_label h = rw h refl
