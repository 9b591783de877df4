-- ===== src/Tests/Connections.antt =====
-- Snapshots, connections between nodes, and who joins and calls, at concrete inputs.
use aphros.Base.{ℕ, ◌≡◌, refl, false, true, some, List, [], ◌∷◌, ◌++◌, ◌+◌, ◌-◌, arith}
use aphros.Base.Bytes.{put_be}
use aphros.Result.{Error, eof, ok, err}
use aphros.Log
use aphros.Log.Contents.{IsLog}
use aphros.Fsm.{restore}
use aphros.Snapshot.{Sink, persist}
use aphros.Snapshot.Copying.{Collects}
use aphros.Snapshot.Persisting.{persist-IsLog}
use aphros.Snapshot.Restoring.{restore-persist}
use aphros.StreamLayer.{
  Ciphers, StreamLayer, Conn, bare, as_client, as_server, client_over, dial, accept, is_raft,
}
use aphros.StreamLayer.Routing.{accept-dial}
use aphros.Tests.Samples.{plain, note, note_bytes, one_note, open_log, open_segment}
use aphros.Tests.Facts.{open_log-IsLog}

-- A sink that is its bytes.
abbrev pail : Sink (List ℕ)
pail = record {
  write = λ bs s. (ok tt, s ++ bs);
  close = λ s. (ok tt, s);
  cancel = λ s. (ok tt, s);
}

abbrev pail-Collects : Collects pail
pail-Collects = record {
  written = λ s. s;
  writes = λ bs s. (s ++ bs, refl, refl);
  closes = λ s. (s, refl, refl);
}

persist-IsLog_example :
    (e' : Log.Env) × (s' : List ℕ) × (persist pail (open_log, []) ≡ (ok tt, (e', s')))
    × (s' ≡ one_note)
    × IsLog plain e' 0 ((note 0 ∷ []) ∷ [])
persist-IsLog_example =
    persist-IsLog plain pail pail-Collects 0 ((note 0 ∷ []) ∷ []) open_log [] open_log-IsLog

restore-persist_example :
    (e' : Log.Env) × (s' : List ℕ) × (persist pail (open_log, []) ≡ (ok tt, (e', s')))
    × ((other : Log.Env) → (x : Error) × ((restore plain s' other).0 ≡ err x))
restore-persist_example =
    restore-persist plain pail pail-Collects 0 ((note 0 ∷ []) ∷ []) open_log [] open_segment []
      (note_bytes 0) [] (note 0) open_log-IsLog refl (unfold put_be in refl) (omega arith) refl refl

-- A connection, before the dialler has written, and at the other end.
abbrev dialled_conn : Conn ℕ
dialled_conn = record { unread = []; sent = []; broken = false; side = bare }

abbrev arrived : Conn ℕ
arrived = record { unread = 1 ∷ 22 ∷ 3 ∷ []; sent = []; broken = false; side = bare }

-- A layer with TLS at both ends, that masks every byte with 7.
abbrev layer : StreamLayer ℕ
layer = record { server_tls = some 4; peer_tls = some 5 }

abbrev masked : Ciphers ℕ
masked = record {
  written = λ t b. (b + 7) ∷ [];
  taken = λ t bs. elim bs [ [] ↦ err eof | b ∷ rest ↦ ok (b - 7, rest) ];
}

abbrev dialled_over : Conn ℕ
dialled_over = record { unread = []; sent = 1 ∷ []; broken = false; side = as_client 5 }

accept-dial_example :
    (dialled_over ≡ client_over (some 5) (record dialled_conn { sent = 1 ∷ [] }))
    × (is_raft masked arrived ≡ true)
    × (accept masked layer (ok arrived)
        ≡ ok (record { unread = 22 ∷ 3 ∷ []; sent = []; broken = false; side = as_server 4 }))
accept-dial_example =
    accept-dial masked layer layer dialled_conn dialled_over arrived (22 ∷ 3 ∷ []) refl refl
      (unfold dial in refl) refl refl refl
