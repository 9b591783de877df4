-- ===== src/Http/Routing/Listed.antt =====
-- The HTTP server as a list of values, and its two handlers as operations on that list.
use aphros.Base.{
  ℕ, ◌+◌, ◌≡◌, refl, sym, ap, ◌∙◌, Option, some, none, List, [], ◌∷◌, ◌++◌, arith, length,
  get_elem?, get_elem?-beyond, suc, zero, Bool-cases, inl, inr, leb, if◌then◌else◌,
}
use aphros.Base.Strings.{same_string}
use aphros.MemoryLog.{Entry, append, read}
use aphros.Http.{
  produce_decoded, produce_reply, consume_decoded, consume_found, consume_reply, Reply, success,
  bad_request, not_found, internal_error,
}
use aphros.Http.Routing.{Method, post, get, other, Request, root_path, Json}

-- The records of the values, numbered from `n`.
abbrev pub numbered : ℕ → List (List ℕ) → List Entry
numbered n [] = []
numbered n (v ∷ vs) = (record { value = v; offset = n }) ∷ numbered (n + 1) vs

abbrev pub encoded : Option (List ℕ) → Reply (List ℕ)
encoded none = internal_error
encoded (some b) = success b

-- The service that the handlers implement, over the values in the order in which they were produced.
module _ (json : Json) where
  abbrev pub accept : Option Entry → List (List ℕ) → Reply (List ℕ) × List (List ℕ)
  accept none vs = (bad_request, vs)
  accept (some r) vs = (encoded (json.encode_offset (length vs)), vs ++ (r.value ∷ []))

  abbrev pub found : ℕ → Option (List ℕ) → Reply (List ℕ)
  found off none = not_found
  found off (some v) = encoded (json.encode_record (record { value = v; offset = off }))

  abbrev pub answer : Option ℕ → List (List ℕ) → Reply (List ℕ)
  answer none vs = bad_request
  answer (some off) vs = found off (get_elem? vs off)

  abbrev pub at_root :
      Method → List ℕ → Reply (List ℕ) → List (List ℕ) → Reply (List ℕ) × List (List ℕ)
  at_root post body res vs = accept (json.decode_produce body) vs
  at_root get body res vs = (answer (json.decode_consume body) vs, vs)
  at_root other body res vs = (res, vs)

  abbrev pub listed :
      (Request → Reply (List ℕ)) → Request → List (List ℕ) → Reply (List ℕ) × List (List ℕ)
  listed unrouted req vs =
      if same_string req.path root_path
      then at_root req.method req.body (unrouted req) vs
      else (unrouted req, vs)

  abbrev pub listed_all :
      (Request → Reply (List ℕ))
      → List Request
      → List (List ℕ)
      → List (Reply (List ℕ)) × List (List ℕ)
  listed_all unrouted [] vs = ([], vs)
  listed_all unrouted (req ∷ rest) vs =
      let (res, vs') = listed unrouted req vs in
      let (more, vs'') = listed_all unrouted rest vs' in (res ∷ more, vs'')

length-numbered : (n : ℕ) (vs : List (List ℕ)) → length (numbered n vs) ≡ length vs
length-numbered n [] = refl
length-numbered n (v ∷ vs) = omega (arith, length-numbered (n + 1) vs)

numbered-append :
    (n : ℕ) (vs : List (List ℕ)) (v : List ℕ)
    → numbered n (vs ++ (v ∷ []))
      ≡ numbered n vs ++ ((record { value = v; offset = n + length vs }) ∷ [])
numbered-append n [] v = ap (λ m. (record { value = v; offset = m }) ∷ []) (omega arith)
numbered-append n (u ∷ vs) v =
    ap (λ l. (record { value = u; offset = n }) ∷ l)
      (numbered-append (n + 1) vs v
        ∙ ap (λ m. numbered (n + 1) vs ++ ((record { value = v; offset = m }) ∷ [])) (omega arith))

abbrev entry_of : ℕ → Option (List ℕ) → Option Entry
entry_of m none = none
entry_of m (some v) = some (record { value = v; offset = m })

get_elem?-numbered :
    (n i m : ℕ) (vs : List (List ℕ))
    → m ≡ n + i
    → get_elem? (numbered n vs) i ≡ entry_of m (get_elem? vs i)
get_elem?-numbered n i m [] at = refl
get_elem?-numbered n zero m (v ∷ vs) at =
    ap (λ o. some (record { value = v; offset = o })) (omega arith)
get_elem?-numbered n (suc i) m (v ∷ vs) at = get_elem?-numbered (n + 1) i m vs (omega arith)

read-numbered :
    (off : ℕ) (vs : List (List ℕ)) → read off (numbered 0 vs) ≡ entry_of off (get_elem? vs off)
unfolding read
read-numbered off vs = elim (Bool-cases (leb (length (numbered 0 vs)) off)) [
  | inl beyond ↦
      rw beyond (rw (get_elem?-beyond vs off (ground (arith, length-numbered 0 vs))) refl)
  | inr inside ↦ rw inside (get_elem?-numbered 0 off off vs (omega arith))
]

append-numbered :
    (r : Entry) (vs : List (List ℕ))
    → append r (numbered 0 vs) ≡ (length vs, numbered 0 (vs ++ (r.value ∷ [])))
unfolding append
append-numbered r vs =
    ap (λ m. (m, numbered 0 vs ++ ((record { value = r.value; offset = m }) ∷ [])))
      (length-numbered 0 vs)
    ∙ ap (λ m. (length vs, numbered 0 vs ++ ((record { value = r.value; offset = m }) ∷ [])))
        (omega arith)
    ∙ ap (λ l. (length vs, l)) (sym (numbered-append 0 vs r.value))

module _ (json : Json) where
  reply_lem :
      (o : Option (List ℕ)) → produce_reply json.decode_produce json.encode_offset o ≡ encoded o
  unfolding produce_reply
  reply_lem none = refl
  reply_lem (some b) = refl

  consume_reply_lem :
      (o : Option (List ℕ)) → consume_reply json.decode_consume json.encode_record o ≡ encoded o
  unfolding consume_reply
  consume_reply_lem none = refl
  consume_reply_lem (some b) = refl

  found_lem :
      (off : ℕ) (o : Option (List ℕ))
      → consume_found json.decode_consume json.encode_record (entry_of off o) ≡ found json off o
  unfolding consume_found
  found_lem off none = refl
  found_lem off (some v) =
      consume_reply_lem (json.encode_record (record { value = v; offset = off }))

  pub accept_lem :
      (o : Option Entry) (vs : List (List ℕ))
      → produce_decoded json.decode_produce json.encode_offset o (numbered 0 vs)
        ≡ ((accept json o vs).0, numbered 0 (accept json o vs).1)
  unfolding produce_decoded
  accept_lem none vs = refl
  accept_lem (some r) vs =
      ap
        (λ (x : ℕ × List Entry).
          (produce_reply json.decode_produce json.encode_offset (json.encode_offset x.0), x.1))
        (append-numbered r vs)
      ∙ ap (λ x. (x, numbered 0 (vs ++ (r.value ∷ []))))
          (reply_lem (json.encode_offset (length vs)))

  pub answer_lem :
      (o : Option ℕ) (vs : List (List ℕ))
      → consume_decoded json.decode_consume json.encode_record o (numbered 0 vs) ≡ answer json o vs
  unfolding consume_decoded
  answer_lem none vs = refl
  answer_lem (some off) vs =
      ap (consume_found json.decode_consume json.encode_record) (read-numbered off vs)
      ∙ found_lem off (get_elem? vs off)
