-- ===== src/Snapshot/Restoring.antt =====
-- A snapshot that Persist wrote, given to Restore.
use mathlib.Core.List.{append_assoc}
use aphros.Base.{
  ℕ, ◌^◌, ◌<◌, ◌≡◌, refl, sym, ap, ◌∙◌, some, List, [], ◌∷◌, ◌++◌, arith, length, length-append,
  take, drop,
}
use aphros.Base.Bytes.{put_be, get_be, length-put_be, get_be-put_be}
use aphros.Base.Slices.{take_front, drop_front}
use aphros.Result.{Error, ok, err}
use aphros.Api.{Record, Codec}
use aphros.Store.Records.{framed, length-framed}
use aphros.Segment.{Segment}
use aphros.Segment.Contents.{store_bytes}
use aphros.Log
use aphros.Log.Contents.{at_disk, IsLog}
use aphros.Fsm.{take_frame, restore}
use aphros.Fsm.Restore.{restore_fails}
use aphros.Snapshot.{Sink, persist}
use aphros.Snapshot.Copying.{Collects}
use aphros.Snapshot.Persisting.{contents, persist-IsLog}

-- Restore takes the frames that the store writes.
pub take_frame-framed :
    (k : Codec) (p rest : List ℕ)
    → length p < 2 ^ 63
    → take_frame k (framed p ++ rest) ≡ ok (p, rest)
take_frame-framed k p rest small =
    let head = put_be 8 (length p) in
    let split : framed p ++ rest ≡ head ++ (p ++ rest) = append_assoc head p rest in
    let size : get_be (take 8 (framed p ++ rest)) ≡ length p =
      ap (λ b. get_be (take 8 b)) split
      ∙ ap get_be (take_front head (p ++ rest) 8 (sym (length-put_be 8 (length p))))
      ∙ get_be-put_be 8 (length p) (omega arith) in
    let tail : drop 8 (framed p ++ rest) ≡ p ++ rest =
      ap (drop 8) split ∙ drop_front head (p ++ rest) 8 (sym (length-put_be 8 (length p))) in
    ground (
      arith,
      size,
      ap (length {A = ℕ}) tail,
      length-append {0} (framed p) rest,
      length-framed p,
      length-append {0} p rest,
      ap (take (length p)) tail,
      ap (drop (length p)) tail,
      take_front p rest (length p) refl,
      drop_front p rest (length p) refl,
    )

-- Persist of a log whose first segment starts with the record `r` succeeds where the sink, empty at
-- first, keeps what it is given; and Restore of what was written returns an error, whatever the log
-- that it restores into.
pub restore-persist :
    {S : Type 0} (k : Codec) (sink : Sink S) (law : Collects sink) (n : ℕ)
    (rss : List (List Record)) (e : Log.Env) (s : S) (g : Segment) (ss : List Segment)
    (p more : List ℕ) (r : Record)
    → IsLog k e n rss
    → e.self.segments ≡ g ∷ ss
    → store_bytes (at_disk g e.disk) ≡ framed p ++ more
    → length p < 2 ^ 63
    → k.unmarshal p ≡ some r
    → law.written s ≡ []
    → (e' : Log.Env) × (s' : S) × (persist sink (e, s) ≡ (ok tt, (e', s')))
      × ((other : Log.Env) → (x : Error) × ((restore k (law.written s') other).0 ≡ err x))
restore-persist k sink law n rss e s g ss p more r h first starts small decodes empty =
    let (e', s', runs, wrote, _) = persist-IsLog k sink law n rss e s h in
    let bytes : law.written s' ≡ framed p ++ (more ++ contents ss e.disk) =
      wrote
      ∙ ap (λ w. w ++ contents e.self.segments e.disk) empty
      ∙ ap (λ gs. contents gs e.disk) first
      ∙ ap (λ b. b ++ contents ss e.disk) starts
      ∙ append_assoc (framed p) more (contents ss e.disk) in
    (
      e',
      s',
      runs,
      λ other.
          restore_fails k other (law.written s') p (more ++ contents ss e.disk) r
            (ap (take_frame k) bytes ∙ take_frame-framed k p _ small) decodes,
    )
