-- ===== src/Store/Reopen.antt =====
-- A store closed and opened again.
use mathlib.Core.List.{append-nil}
use aphros.Base.{ℕ, ◌≡◌, refl, sym, ap, ◌∙◌, false, true, List, [], ◌++◌, length, arith}
use aphros.Result.{ok, >>=-ok}
use aphros.Disk.Frame.{Touches}
use aphros.Disk.{Disk}
use aphros.Store.{Env, Store, file_of, flush, close, new_store}
use aphros.Store.Buffer.{content, IsHealthy, flush_lem}
use aphros.Store.Records.{IsStore}

-- Close writes out what is buffered: the file of the closed store holds all of its content.
pub close_lem :
    (e : Env)
    → IsHealthy e
    → (e' : Env) × (close e ≡ (ok tt, e'))
      × ((e'.disk.node e.self.ino).bytes ≡ content e)
      × Touches e.self.ino e.disk e'.disk
unfolding close
close_lem e h =
    let (e₁, runs, adds, empty) = flush_lem e h in
    let e' : Env = record e₁ { self = record e₁.self { closed = true } } in
    (
      e',
      >>=-ok flush _ runs ∙ ground (arith, adds.healthy.is_open, adds.healthy.sound),
      ap (λ i. (e₁.disk.node i).bytes) (sym adds.ino_same)
          ∙ sym (append-nil (file_of e₁).bytes)
          ∙ ap (λ b. (file_of e₁).bytes ++ b) (sym empty)
          ∙ adds.added
          ∙ append-nil (content e),
      adds.touches,
    )

-- A store opened on a sound file has the file's bytes for its content.
pub new_store_lem :
    (ino : ℕ) (d : Disk) (bs : List ℕ)
    → (d.node ino).faulty ≡ false
    → (d.node ino).bytes ≡ bs
    → (s : Store) × (new_store ino d ≡ (ok s, d))
      × IsStore (record { self = s; disk = d })
      × (content (record { self = s; disk = d }) ≡ bs)
      × (s.ino ≡ ino)
unfolding new_store
new_store_lem ino d bs sound same =
    let s : Store = record {
      ino = ino;
      buf = [];
      failed = false;
      closed = false;
      size = length (d.node ino).bytes;
    } in
    (
      s,
      ground arith,
      record {
        healthy = record { not_failed = refl; is_open = refl; sound = sound };
        sized = ap (length {A = ℕ}) (sym (append-nil (d.node ino).bytes));
      },
      append-nil (d.node ino).bytes ∙ same,
      refl,
    )
