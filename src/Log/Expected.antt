-- ===== src/Log/Expected.antt =====
-- What Read of a log answers, said of the records that it holds and of where its segments start.
use aphros.Base.{
  ℕ, ◌+◌, ◌-◌, ◌≤◌, ◌≡◌, refl, sym, ap, ◌∙◌, subst, false, ◌||◌, Option, inl, inr, some, none, List,
  arith, length, get_elem?, get_elem?-some, ltb, leb, if◌then◌else◌, Bool-cases, Option-cases,
}
use aphros.Result.{Result, ok, err, out_of_range}
use aphros.Api.{Record, Codec}
use aphros.Log.{Env, read}
use aphros.Log.Contents.{all_records, IsLog}
use aphros.Log.Reading.{is_boundary, read-found}
use aphros.Log.Refusing.{read-boundary, read-outside}

-- The record at the offset, or that it is out of range: below the first, behind the last, and wherever
-- a segment other than the first starts.
abbrev pub in_range : ℕ → Option Record → Result Record
in_range off none = err (out_of_range off)
in_range off (some r) = ok r

abbrev pub expected : ℕ → List (List Record) → ℕ → Result Record
expected n rss off =
    if ltb off n || is_boundary n rss off
    then err (out_of_range off)
    else in_range off (get_elem? (all_records rss) (off - n))

get_elem?-none : (rs : List Record) (i : ℕ) → get_elem? rs i ≡ none → length rs ≤ i
get_elem?-none rs i missing = elim (Bool-cases (leb (length rs) i)) [
  | inl beyond ↦ (ground arith)
  | inr inside ↦
      let (r, found) = get_elem?-some rs i (ground arith) in
      let clash : none ≡ some r = sym missing ∙ found in cc
]

answers :
    (k : Codec) (e : Env) (n off : ℕ) (rss : List (List Record)) {res : Result Record} {e' : Env}
    → read k off e ≡ (res, e')
    → expected n rss off ≡ res
    → IsLog k e' n rss
    → ((read k off e).0 ≡ expected n rss off) × IsLog k (read k off e).1 n rss
answers k e n off rss runs is holds =
    (ap (λ x. x.0) runs ∙ sym is, subst (λ t. IsLog k t n rss) (sym (ap (λ x. x.1) runs)) holds)

-- Read of a sound log, at whatever offset: it answers with the record that the log holds there, or
-- that the offset is out of range where the log holds none or a segment other than the first starts;
-- and the log holds the same records after it.
pub read-expected :
    (k : Codec) (e : Env) (n off : ℕ) (rss : List (List Record))
    → IsLog k e n rss
    → ((read k off e).0 ≡ expected n rss off) × IsLog k (read k off e).1 n rss
read-expected k e n off rss h = elim (Bool-cases (ltb off n)) [
  | inl below ↦
      answers k e n off rss (read-outside k e n off rss h (inl (ground arith))) (rw below refl) h
  | inr from_first ↦
      let le : n ≤ off = ground arith in
      elim (Bool-cases (is_boundary n rss off)) [
        | inl at ↦
            answers k e n off rss (read-boundary k e n off rss h le at) (rw from_first (rw at refl))
              h
        | inr clear ↦
            let split : n + (off - n) ≡ off = omega arith in
            elim (Option-cases (get_elem? (all_records rss) (off - n))) [
              | inl missing ↦
                  let beyond = get_elem?-none (all_records rss) (off - n) missing in
                  answers k e n off rss (read-outside k e n off rss h (inr (omega arith)))
                    (rw from_first (rw clear (rw missing refl))) h
              | inr (r, found) ↦
                  let (e', runs, holds) =
                    read-found k e n (off - n) rss r h found
                      (subst (λ o. is_boundary n rss o ≡ false) (sym split) clear) in
                  answers k e n off rss (ap (λ o. read k o e) (sym split) ∙ runs)
                    (rw from_first (rw clear (rw found refl))) holds
            ]
      ]
]
