-- ===== src/Sequencing/Buffers.antt =====
-- The buffered messages (`reorder` and `reorderBytes` of internal/broker/broker.go), and each change
-- of them.
use spruce.Prelude.{
  ℕ, ◌+◌, ◌-◌, ◌≡◌, refl, sym, ap, subst, ◌∙◌, ◌≢◌, inl, inr, none, some, [], arith, ℕ_discrete,
  Option-cases, sum_by, Str, str_dec,
}
use spruce.Prelude.Maps.{
  Map, find, put, del, Distinct, found-put, found-del, put-Distinct, del-Distinct, find-del_self,
  find-del_ne, find-put_self, find-put_ne, del_absent, sum_by-put_new, sum_by-put_old, sum_by-del,
}
use spruce.Message.{Message, message_size}
use spruce.Cache.{Cache}
use spruce.Cache.Expiry.{gaps_of, gap_bytes}
use spruce.Sequencing.{gap_at}

abbrev pub gaps_total : Map Str (Map ℕ Message) → ℕ
gaps_total = sum_by (λ e. gap_bytes e.1)

-- What each number of each origin stands for, on all brokers.
abbrev pub Numbering : Type 0
Numbering = Str → ℕ → Message

abbrev pub Agrees : Numbering → Message → Type 0
Agrees truth m = m ≡ truth m.origin m.sequence

-- Each message waits once, under its own origin and number, and the bytes are those of all that wait.
pub record IsBuffered (truth : Numbering) (reorder : Map Str (Map ℕ Message)) (bytes : ℕ)
    : Type 0 where
  pub distinct : Distinct str_dec reorder
  pub once : (origin : Str) → Distinct ℕ_discrete (gaps_of origin reorder)
  pub keyed :
      (origin : Str) (k : ℕ) (m : Message)
      → find ℕ_discrete k (gaps_of origin reorder) ≡ some m
      → (m.sequence ≡ k) × (m.origin ≡ origin) × Agrees truth m
  pub counted : bytes ≡ gaps_total reorder

abbrev pub Buffers : Numbering → Cache → Type 0
Buffers truth c = IsBuffered truth c.reorder c.reorder_bytes

pub gaps_of-put_self :
    (o : Str) (g : Map ℕ Message) (r : Map Str (Map ℕ Message)) → gaps_of o (put str_dec o g r) ≡ g
unfolding gaps_of
gaps_of-put_self o g r = rw (find-put_self str_dec o g r, gaps_of) refl

gaps_of-put_ne :
    (o p : Str) (g : Map ℕ Message) (r : Map Str (Map ℕ Message))
    → p ≢ o
    → gaps_of p (put str_dec o g r) ≡ gaps_of p r
unfolding gaps_of
gaps_of-put_ne o p g r ne = rw (find-put_ne str_dec o p g r ne, gaps_of) refl

total-put :
    (o : Str) (g : Map ℕ Message) (r : Map Str (Map ℕ Message))
    → gaps_total (put str_dec o g r) + gap_bytes (gaps_of o r) ≡ gaps_total r + gap_bytes g
unfolding gaps_of gap_bytes
total-put o g r = elim (Option-cases (find str_dec o r)) [
  | inl e ↦ rw (e, gaps_of) (omega (arith, sum_by-put_new str_dec (λ x. gap_bytes x.1) o g r e))
  | inr (h, e) ↦
      rw (e, gaps_of) (omega (arith, sum_by-put_old str_dec (λ x. gap_bytes x.1) o g h r e))
]

-- The gaps of one origin are replaced, and the bytes change with them.
pub put-IsBuffered :
    (truth : Numbering) (o : Str) (g : Map ℕ Message) (r : Map Str (Map ℕ Message)) (b b' : ℕ)
    → IsBuffered truth r b
    → Distinct ℕ_discrete g
    → ((k : ℕ) (m : Message)
        → find ℕ_discrete k g ≡ some m
        → (m.sequence ≡ k) × (m.origin ≡ o) × Agrees truth m)
    → b' + gap_bytes (gaps_of o r) ≡ b + gap_bytes g
    → IsBuffered truth (put str_dec o g r) b'
put-IsBuffered truth o g r b b' v d key e = record {
  distinct = put-Distinct str_dec o g r v.distinct;
  once = λ p. elim (str_dec p o) [
    | yes same ↦
        subst (λ x. Distinct ℕ_discrete (gaps_of x (put str_dec o g r))) (sym same)
          (subst (Distinct ℕ_discrete) (sym (gaps_of-put_self o g r)) d)
    | no ne ↦ subst (Distinct ℕ_discrete) (sym (gaps_of-put_ne o p g r ne)) (v.once p)
  ];
  keyed = λ p k m h. elim (str_dec p o) [
    | yes same ↦
        let (a, b, c) = key k m (
          ap (find ℕ_discrete k) (sym (gaps_of-put_self o g r))
          ∙ ap (λ x. find ℕ_discrete k (gaps_of x (put str_dec o g r))) (sym same)
          ∙ h) in
        (a, b ∙ sym same, c)
    | no ne ↦ v.keyed p k m (ap (find ℕ_discrete k) (sym (gaps_of-put_ne o p g r ne)) ∙ h)
  ];
  counted = omega (arith, e, v.counted, total-put o g r);
}

-- A buffered message is taken.
pub take-IsBuffered :
    (truth : Numbering) (o : Str) (k : ℕ) (m : Message) (c : Cache)
    → Buffers truth c
    → gap_at o k c ≡ some m
    → IsBuffered truth
        (put str_dec o (del ℕ_discrete k (gaps_of o c.reorder)) c.reorder)
        (c.reorder_bytes - message_size m)
unfolding gap_at gap_bytes
take-IsBuffered truth o k m c v found =
    let g = gaps_of o c.reorder in
    let less = sum_by-del ℕ_discrete (λ e. message_size e.1) k m g (v.once o) found in
    put-IsBuffered truth o (del ℕ_discrete k g) c.reorder c.reorder_bytes
      (c.reorder_bytes - message_size m) v (del-Distinct ℕ_discrete k g (v.once o))
      (λ j n h. v.keyed o j n (found-del ℕ_discrete k j n g h).1)
      (omega (arith, less, v.counted, total-put o (del ℕ_discrete k g) c.reorder))

-- A message joins the buffered ones.
pub join-IsBuffered :
    (truth : Numbering) (m : Message) (c : Cache)
    → Buffers truth c
    → Agrees truth m
    → gap_at m.origin m.sequence c ≡ none
    → IsBuffered truth
        (put str_dec m.origin (put ℕ_discrete m.sequence m (gaps_of m.origin c.reorder)) c.reorder)
        (c.reorder_bytes + message_size m)
unfolding gap_at gap_bytes
join-IsBuffered truth m c v own missing =
    let g = gaps_of m.origin c.reorder in
    put-IsBuffered truth m.origin (put ℕ_discrete m.sequence m g) c.reorder c.reorder_bytes
      (c.reorder_bytes + message_size m) v
      (put-Distinct ℕ_discrete m.sequence m g (v.once m.origin))
      (λ j n h. elim (found-put ℕ_discrete m.sequence j m n g h) [
        | inl (e, same) ↦ rw same (sym e, refl, own)
        | inr (ne, old) ↦ v.keyed m.origin j n old
      ])
      (omega (arith, sum_by-put_new ℕ_discrete (λ e. message_size e.1) m.sequence m g missing))

-- The gaps of an origin may stand as an empty map.
pub same-IsBuffered :
    (truth : Numbering) (o : Str) (c : Cache)
    → Buffers truth c
    → IsBuffered truth (put str_dec o (gaps_of o c.reorder) c.reorder) c.reorder_bytes
same-IsBuffered truth o c v =
    put-IsBuffered truth o (gaps_of o c.reorder) c.reorder c.reorder_bytes c.reorder_bytes v
      (v.once o) (v.keyed o) refl

pub gaps_of-del_self : (o : Str) (r : Map Str (Map ℕ Message)) → gaps_of o (del str_dec o r) ≡ []
unfolding gaps_of
gaps_of-del_self o r = rw (find-del_self str_dec o r, gaps_of) refl

pub gaps_of-del_ne :
    (o p : Str) (r : Map Str (Map ℕ Message)) → p ≢ o → gaps_of p (del str_dec o r) ≡ gaps_of p r
unfolding gaps_of
gaps_of-del_ne o p r ne = rw (find-del_ne str_dec o p r ne, gaps_of) refl

pub total-del :
    (o : Str) (r : Map Str (Map ℕ Message))
    → Distinct str_dec r
    → gaps_total (del str_dec o r) + gap_bytes (gaps_of o r) ≡ gaps_total r
unfolding gaps_of gap_bytes
total-del o r d = elim (Option-cases (find str_dec o r)) [
  | inl e ↦ rw (e, gaps_of) (omega (arith, ap gaps_total (del_absent str_dec o r e)))
  | inr (h, e) ↦ rw (e, gaps_of) (sum_by-del str_dec (λ x. gap_bytes x.1) o h r d e)
]

-- An origin is dropped, and its bytes are no longer counted.
pub del-IsBuffered :
    (truth : Numbering) (o : Str) (r : Map Str (Map ℕ Message)) (b b' : ℕ)
    → IsBuffered truth r b
    → b' + gap_bytes (gaps_of o r) ≡ b
    → IsBuffered truth (del str_dec o r) b'
del-IsBuffered truth o r b b' v e = record {
  distinct = del-Distinct str_dec o r v.distinct;
  once = λ p. elim (str_dec p o) [
    | yes same ↦
        subst (λ x. Distinct ℕ_discrete (gaps_of x (del str_dec o r))) (sym same)
          (subst (Distinct ℕ_discrete) (sym (gaps_of-del_self o r)) tt)
    | no ne ↦ subst (Distinct ℕ_discrete) (sym (gaps_of-del_ne o p r ne)) (v.once p)
  ];
  keyed = λ p k m h. elim (str_dec p o) [
    | yes same ↦ absurd (
        nothing k m (
          ap (find ℕ_discrete k) (sym (gaps_of-del_self o r))
          ∙ ap (λ x. find ℕ_discrete k (gaps_of x (del str_dec o r))) (sym same)
          ∙ h))
    | no ne ↦ v.keyed p k m (ap (find ℕ_discrete k) (sym (gaps_of-del_ne o p r ne)) ∙ h)
  ];
  counted = omega (arith, e, v.counted, total-del o r v.distinct);
}
  where
    nothing : (k : ℕ) (m : Message) → find ℕ_discrete k [] ≢ some m
    nothing k m h = unfold find in cc
