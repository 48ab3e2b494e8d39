-- ===== src/Client/Names.antt =====
-- The names that a query carries.
use sys_slp_client.Base.{
  ℕ, ◌+◌, ◌-◌, ◌≤◌, ◌≡◌, refl, sym, ap, ◌∙◌, subst, true, false, ◌==◌, ltb, Option, none, some, inl,
  inr, List, [], ◌∷◌, ◌++◌, length, length-append, u8, arith, tests, Bool-cases, ltb_false→le,
}
use sys_slp_client.Client.Dns.{
  label_fits, put_label, end_name, encode_from, dns_encode_name, dns_build_query, with_name,
  query_header, question_end,
}
use sys_slp_client.Client.Spelling.{Spells, fits_bounds, encode_from-Spells}

-- A name on the wire: labels of 1 to 63 bytes, and the root.
pub data WireName : List ℕ → Type 0 where
  root : WireName (0 ∷ [])
  label :
      (n : ℕ) (bytes rest : List ℕ)
      → n ≡ length bytes
      → 1 ≤ n
      → n ≤ 63
      → WireName rest
      → WireName (n ∷ bytes ++ rest)

-- What the encoder writes is a name, it fits, and it has at most `size` bytes.
pub record Encodes (cap pos size : ℕ) (out : List ℕ) : Type 0 where
  pub name : WireName out
  pub within : pos + length out + 1 ≤ cap
  pub short : length out ≤ size

end_name-Encodes :
    (cap pos size : ℕ) (out : List ℕ)
    → end_name cap pos ≡ some out
    → 1 ≤ size
    → Encodes cap pos size out
unfolding end_name
end_name-Encodes cap pos size out e one = elim (Bool-cases (ltb cap (pos + 2))) [
  | inl over ↦ absurd (cc (sym (shut over) ∙ e))
  | inr fits ↦
      subst (Encodes cap pos size) (some_eq (sym (there fits) ∙ e)) (record {
        name = root;
        within = omega (tests, ltb_false→le cap (pos + 2) fits);
        short = one;
      })
]
  where
    shut : ltb cap (pos + 2) ≡ true → end_name cap pos ≡ none
    shut h = rw h refl

    there : ltb cap (pos + 2) ≡ false → end_name cap pos ≡ some (0 ∷ [])
    there h = rw h refl

    some_eq : {a b : List ℕ} → some a ≡ some b → a ≡ b
    some_eq p = cc p

put_label-Encodes :
    (cap pos size size' : ℕ) (l out : List ℕ) (rest : Option (List ℕ))
    → put_label (label_fits cap pos l) l rest ≡ some out
    → ((r : List ℕ) → rest ≡ some r → Encodes cap (pos + (length l + 1)) size' r)
    → length l + size' + 1 ≤ size
    → Encodes cap pos size out
unfolding put_label
put_label-Encodes cap pos size size' l out none e k s = absurd (cc e)
put_label-Encodes cap pos size size' l out (some r) e k s =
    elim (Bool-cases (label_fits cap pos l)) [
      | inr over ↦ absurd (cc (sym (shut over) ∙ e))
      | inl fits ↦
          let b = fits_bounds cap pos l fits in
          let n = k r refl in
          subst (Encodes cap pos size) (some_eq (sym (there fits) ∙ e)) (record {
            name =
                label (u8 (length l)) l r (omega (arith, b.1)) (omega (arith, b)) (omega (arith, b))
                  n.name;
            within = omega (arith, length-append l r, n.within);
            short = omega (arith, length-append l r, n.short, s);
          })
    ]
  where
    shut : label_fits cap pos l ≡ false → put_label (label_fits cap pos l) l (some r) ≡ none
    shut h = rw h refl

    there :
        label_fits cap pos l ≡ true
        → put_label (label_fits cap pos l) l (some r) ≡ some (u8 (length l) ∷ l ++ r)
    there h = rw h refl

    some_eq : {a b : List ℕ} → some a ≡ some b → a ≡ b
    some_eq p = cc p

encode_from-Encodes :
    (cap pos : ℕ) (l cs out : List ℕ)
    → encode_from cap pos l cs ≡ some out
    → Encodes cap pos (length l + length cs + 2) out
unfolding encode_from
encode_from-Encodes cap pos [] [] out e = end_name-Encodes cap pos 2 out e (omega arith)
encode_from-Encodes cap pos (x ∷ l) [] out e =
    put_label-Encodes cap pos (length (x ∷ l) + 0 + 2) 1 (x ∷ l) out
      (end_name cap (pos + (length (x ∷ l) + 1))) e
      (λ r h. end_name-Encodes cap (pos + (length (x ∷ l) + 1)) 1 r h (omega arith)) (omega arith)
encode_from-Encodes cap pos l (c ∷ cs) out e = elim (Bool-cases (c == b'.')) [
  | inl dot ↦
      put_label-Encodes cap pos (length l + length (c ∷ cs) + 2) (length cs + 2) l out
        (encode_from cap (pos + (length l + 1)) [] cs) (sym (at_dot dot) ∙ e)
        (λ r h.
          subst (λ n. Encodes cap (pos + (length l + 1)) n r) (omega arith)
            (encode_from-Encodes cap (pos + (length l + 1)) [] cs r h))
        (omega arith)
  | inr other ↦
      subst (λ n. Encodes cap pos n out) (omega (arith, length-append l (c ∷ [])))
        (encode_from-Encodes cap pos (l ++ c ∷ []) cs out (sym (in_label other) ∙ e))
]
  where
    at_dot :
        c == b'.' ≡ true
        → encode_from cap pos l (c ∷ cs)
          ≡ put_label (label_fits cap pos l) l (encode_from cap (pos + (length l + 1)) [] cs)
    at_dot h = rw h refl

    in_label :
        c == b'.' ≡ false → encode_from cap pos l (c ∷ cs) ≡ encode_from cap pos (l ++ c ∷ []) cs
    in_label h = rw h refl

-- A query that can be built carries the name on the wire, and is at most 18 bytes longer than the host's text; it may pass the
-- buffer's end by 3 bytes and no more.
pub record Queries (cap : ℕ) (host : List ℕ) (id : ℕ) (query : List ℕ) : Type 0 where
  pub wire_name : List ℕ
  pub is_name : WireName wire_name
  pub spells : Spells host wire_name
  pub layout : query ≡ query_header id ++ (wire_name ++ question_end)
  pub short : length query ≤ length host + 18
  pub over : length query ≤ cap + 3

with_name-Queries :
    (cap : ℕ) (host : List ℕ) (id : ℕ) (name : Option (List ℕ)) (query : List ℕ)
    → with_name id name ≡ some query
    → ((n : List ℕ) → name ≡ some n → Encodes (cap - 12) 0 (0 + length host + 2) n)
    → ((n : List ℕ) → name ≡ some n → Spells host n)
    → Queries cap host id query
with_name-Queries cap host id none query e k spelt = absurd (cc e)
with_name-Queries cap host id (some n) query e k spelt = record {
  wire_name = n;
  is_name = (k n refl).name;
  spells = spelt n refl;
  layout = layout;
  short = omega (arith, ap length layout, length-append n question_end, (k n refl).short);
  over = omega (arith, ap length layout, length-append n question_end, (k n refl).within);
}
  where
    layout : query ≡ query_header id ++ (n ++ question_end)
    layout = cc (sym e)

-- A query that dns_build_query builds holds the host's name between the fixed header and the question's type and class: its labels
-- are the stretches of the host's text between the dots, byte for byte and in order, of 1 to 63 bytes each, and the root
-- follows. The query has at most 18 bytes more than the host's text, and at most 3 more than the buffer holds.
pub dns_build_query-Queries :
    (host : List ℕ) (id cap : ℕ) (query : List ℕ)
    → dns_build_query host id cap ≡ some query
    → Queries cap host id query
unfolding dns_build_query dns_encode_name
dns_build_query-Queries host id cap query e =
    with_name-Queries cap host id (encode_from (cap - 12) 0 [] host) query e
      (λ n h. encode_from-Encodes (cap - 12) 0 [] host n h)
      (λ n h. encode_from-Spells (cap - 12) 0 [] host n tt h)
