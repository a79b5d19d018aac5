-- ===== src/Ring/Messages.antt =====
-- What the bytes of a ringbuffer mean: the messages written and not yet read, oldest first.
use luajack.Prelude.{
  ℕ, ◌+◌, ◌-◌, ◌^◌, ◌≤◌, ◌<◌, ◌≡◌, refl, sym, ap, ◌∙◌, ◌⊎◌, inl, inr, none, some, List, [], ◌∷◌,
  ◌++◌, append-nil, append_assoc, length, take, drop, ltb, arith, length-append, length-take,
  length-drop, take-append-drop, take_all, take-append, take-append_le, drop-append_le,
  take-append_ge, drop-append_ge, ℕ-cases, lt→ltb, le→ltb, le→leb, lt→leb, eq→==, ne→==, subst,
  if◌then◌else◌,
}
use luajack.Ring.{Written, no_space, done, message_data, write_data, write_message, complete_header}
use luajack.Ring.Api.{Ringbuffer, Documented}
use luajack.Ring.Header.{Hdr, sizeof_hdr, hdr_bytes, length-hdr_bytes, hdr_of-hdr_bytes}

-- A tag (its bit pattern) and data.
abbrev pub Message : Type 0
Message = ℕ × List ℕ

abbrev pub header : Message → Hdr
header (t, d) = record { tag = t; len = length d }

-- Tag and length fit the fields of the header.
abbrev pub Fits : Message → Type 0
Fits (t, d) = (t < 2 ^ 32) × (length d < 2 ^ 32)

abbrev pub AllFit : List Message → Type 0
AllFit [] = Unit {0}
AllFit (m ∷ ms) = Fits m × AllFit ms

abbrev pub encode : List Message → List ℕ
encode [] = []
encode ((t, d) ∷ ms) = hdr_bytes (header (t, d)) ++ (d ++ encode ms)

pub encode-append : (ms ns : List Message) → encode (ms ++ ns) ≡ encode ms ++ encode ns
encode-append [] ns = refl
encode-append ((t, d) ∷ ms) ns = simp (encode-append ms ns, append_assoc)

-- Header and data of the first message, whatever part the end of the storage falls in.
pub message_data_lem :
    (v0 v1 : List ℕ) (len : ℕ)
    → sizeof_hdr + len ≤ length (v0 ++ v1)
    → message_data v0 v1 len ≡ take len (drop sizeof_hdr (v0 ++ v1))
unfolding message_data
message_data_lem v0 v1 len h = elim (ℕ-cases (sizeof_hdr + len) (length v0)) [
  | inl all ↦
      rw (le→leb _ _ all, drop-append_le sizeof_hdr v0 v1 (omega arith))
        (sym
          (take-append_le len (drop sizeof_hdr v0) v1 (omega (arith, length-drop sizeof_hdr v0))))
  | inr part ↦ rw (lt→leb _ _ part) (elim (ℕ-cases (length v0) sizeof_hdr) [
    | inl none_there ↦ rw (le→ltb _ _ none_there, drop-append_ge sizeof_hdr v0 v1 none_there) refl
    | inr some_there ↦
        rw
          (
            lt→ltb _ _ some_there,
            drop-append_le sizeof_hdr v0 v1 (omega arith),
            take-append_ge len (drop sizeof_hdr v0) v1 (omega (arith, length-drop sizeof_hdr v0)),
            length-drop sizeof_hdr v0,
            take_all (length v0 - sizeof_hdr) (drop sizeof_hdr v0)
                (omega (arith, length-drop sizeof_hdr v0)),
          )
          refl
  ])
]

module _ (j : Ringbuffer) (doc : Documented j) where
  open j use {Rb, write_space, read_space, peek, write, write_vector, read_vector}
  open doc use {contents}

  -- What a completed write does: the bytes are appended and the space goes down.
  abbrev pub Appended : Rb → List ℕ → Written × Rb → Type 0
  Appended rb bs r =
      (r.0 ≡ done)
      × (contents r.1 ≡ contents rb ++ bs)
      × (write_space r.1 + length bs ≡ write_space rb)

  store_lem :
      (rb : Rb) (a b : List ℕ) (n : ℕ)
      → length a ≤ (write_vector rb).0
      → length b ≤ (write_vector rb).1
      → (length a ≡ (write_vector rb).0) ⊎ (b ≡ [])
      → length a + length b ≡ n
      → Appended rb (a ++ b) (done, j.write_advance (j.store rb a b) n)
  store_lem rb a b n ha hb full e = (
    refl,
    doc.store_contents rb a b n ha hb full e,
    rw (length-append a b, e) (doc.store_space rb a b n (omega (arith, doc.write_vector_lem rb))),
  )

  -- The data that does not fit the first part goes on in the second.
  write_split :
      (len : ℕ) (d : List ℕ) (rb : Rb)
      → length d ≡ len
      → len ≤ write_space rb
      → (write_vector rb).0 < len
      → let l0 = (write_vector rb).0 in
        Appended rb d
          (done, j.write_advance (j.store rb (take l0 d) (take (len - l0) (drop l0 d))) len)
  write_split len d rb e h more =
      let l0 = (write_vector rb).0 in
      let l1 = (write_vector rb).1 in
      let b = take (len - l0) (drop l0 d) in
      let lb : length b ≡ len - l0 =
        omega (arith, length-take (len - l0) (drop l0 d), length-drop l0 d) in
      let la : length (take l0 d) ≡ l0 = omega (arith, length-take l0 d) in
      let room : l0 + l1 ≡ write_space rb = doc.write_vector_lem rb in
      let whole : take l0 d ++ b ≡ d =
        ap (λ z. take l0 d ++ z) (take_all (len - l0) (drop l0 d) (omega (arith, length-drop l0 d)))
        ∙ take-append-drop l0 d in
      subst (λ z. Appended rb z (done, j.write_advance (j.store rb (take l0 d) b) len)) whole
        (store_lem rb (take l0 d) b len (omega arith) (omega arith) (inl la) (omega arith))

  write_data_pos :
      (len : ℕ) (d : List ℕ) (rb : Rb)
      → length d ≡ len
      → 0 < len
      → len ≤ write_space rb
      → Appended rb d (write_data j len d rb)
  unfolding write_data
  write_data_pos len d rb e p h =
      rw
        (
          ne→== len 0 (omega arith),
          le→ltb ((write_vector rb).0 + (write_vector rb).1) len
              (omega (arith, doc.write_vector_lem rb)),
        )
        (elim (ℕ-cases len (write_vector rb).0) [
          | inl fits ↦ rw (le→leb _ _ fits) (
              subst (λ z. Appended rb z (done, j.write_advance (j.store rb (take len d) []) len))
                (append-nil (take len d) ∙ take_all len d (omega arith))
                (store_lem rb (take len d) [] len (omega (arith, length-take len d)) (omega arith)
                  (inr refl) (omega (arith, length-take len d))))
          | inr more ↦ rw (lt→leb _ _ more) (write_split len d rb e h more)
        ])

  -- The data part, on each of the ways the writable parts can lie.
  pub write_data_lem :
      (d : List ℕ) (rb : Rb)
      → length d ≤ write_space rb
      → Appended rb d (write_data j (length d) d rb)
  unfolding write_data
  write_data_lem [] rb h = (refl, sym (append-nil _), omega arith)
  write_data_lem (x ∷ d) rb h = write_data_pos (length (x ∷ d)) (x ∷ d) rb refl (omega arith) h

  pub write_message_lem :
      (m : Message) (rb : Rb)
      → sizeof_hdr + length m.1 ≤ write_space rb
      → Appended rb (hdr_bytes (header m) ++ m.1) (write_message j (header m) m.1 rb)
  unfolding write_message
  write_message_lem (t, d) rb h =
      let bs = hdr_bytes (header (t, d)) in
      let l8 : length bs ≡ sizeof_hdr = length-hdr_bytes (header (t, d)) in
      let room : length bs ≤ write_space rb = omega arith in
      let left : write_space (write rb bs).1 + length bs ≡ write_space rb =
        doc.write_space_left rb bs room in
      let w = write_data_lem d (write rb bs).1 (omega arith) in
      rw
        (
          le→ltb (write_space rb) (sizeof_hdr + length d) h,
          eq→== (write rb bs).0 sizeof_hdr (doc.write_count rb bs room ∙ l8),
        )
        (
          w.0,
          w.1 ∙ ap (λ z. z ++ d) (doc.write_contents rb bs room) ∙ append_assoc (contents rb) bs d,
          omega (arith, w.2, length-append bs d),
        )

  pub write_message_full :
      (h : Hdr) (d : List ℕ) (rb : Rb)
      → write_space rb < sizeof_hdr + h.len
      → write_message j h d rb ≡ (no_space, rb)
  unfolding write_message
  write_message_full h d rb lt = rw (lt→ltb _ _ lt)

  -- With a header at the front, it is reported as soon as its data is there.
  complete_header_lem :
      (h : Hdr) (d : List ℕ) (rb : Rb)
      → h.tag < 2 ^ 32
      → h.len < 2 ^ 32
      → contents rb ≡ hdr_bytes h ++ d
      → complete_header j rb
        ≡ (if ltb (sizeof_hdr + length d) (sizeof_hdr + h.len) then none else some h)
  unfolding complete_header
  complete_header_lem h d rb ft fl e =
      let front : peek rb sizeof_hdr ≡ hdr_bytes h =
        doc.peek_lem rb sizeof_hdr
        ∙ ap (take sizeof_hdr) e
        ∙ take-append sizeof_hdr (hdr_bytes h) d (length-hdr_bytes h) in
      let there : read_space rb ≡ sizeof_hdr + length d =
        doc.read_space_lem rb
        ∙ ap length e
        ∙ omega (arith, length-append (hdr_bytes h) d, length-hdr_bytes h) in
      rw (front, there, hdr_of-hdr_bytes h ft fl, length-hdr_bytes h)

  pub complete_header_front :
      (m : Message) (rest : List ℕ) (rb : Rb)
      → Fits m
      → contents rb ≡ hdr_bytes (header m) ++ (m.1 ++ rest)
      → complete_header j rb ≡ some (header m)
  complete_header_front (t, d) rest rb f e =
      complete_header_lem (header (t, d)) (d ++ rest) rb f.0 f.1 e
      ∙ ap (λ z. if z then none else some (header (t, d)))
          (le→ltb _ _ (omega (arith, length-append d rest)))

  pub complete_header_empty : (rb : Rb) → contents rb ≡ [] → complete_header j rb ≡ none
  unfolding complete_header
  complete_header_empty rb e = rw (doc.peek_lem rb sizeof_hdr, e)

  -- A header whose data is not all there yet is not reported.
  pub complete_header_partial :
      (h : Hdr) (d : List ℕ) (rb : Rb)
      → h.tag < 2 ^ 32
      → h.len < 2 ^ 32
      → length d < h.len
      → contents rb ≡ hdr_bytes h ++ d
      → complete_header j rb ≡ none
  complete_header_partial h d rb ft fl short e =
      complete_header_lem h d rb ft fl e
      ∙ ap (λ z. if z then none else some h) (lt→ltb _ _ (omega arith))
