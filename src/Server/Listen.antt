-- ===== src/Server/Listen.antt =====
-- The listener of internal/gpsv2/server/server.go, and how a connection is told apart by its first
-- byte.
use gpstracker_backend.Base.{ℕ, ◌+◌, ◌%◌, ◌^◌, Bool, List, [], ◌∷◌, ◌==◌, if◌then◌else◌}
use gpstracker_backend.Base.Go.{
  eof, timeout, closed, Result, ok, err, panic, Input, byte, late, broken,
}
use gpstracker_backend.Server.{
  Database, Server, Login, JsonLogin, handle_as_gt06, handle_as_simple_json,
}

-- What became of a connection: it was closed after its first byte was waited for in vain, it was
-- left as it is, or it was handled as that of one of the two kinds of device.
pub data Welcome : Type 0 where
  hung_up : Welcome
  left_open : Welcome
  json_login : Login → Welcome
  gt06_login : Login → List ℕ → Welcome

-- `Peek(1)`
abbrev peek : List Input → Result ℕ
peek [] = err eof
peek (late ∷ s) = err timeout
peek (broken ∷ s) = err closed
peek (byte b ∷ s) = ok b

module _ {D : Type 0} (Q : Database D) (unmarshal : List ℕ → Result JsonLogin) where
  abbrev as_json : Server D × Login → Server D × Welcome
  as_json (s, l) = (s, json_login l)

  abbrev as_gt06 : Server D × Login × List ℕ → Server D × Welcome
  as_gt06 (s, l, d) = (s, gt06_login l d)

  abbrev by_first : List Input → Bool → Server D → Result ℕ → Server D × Welcome
  by_first stream fault s (err e) = (s, hung_up)
  by_first stream fault s panic = (s, hung_up)
  by_first stream fault s (ok b) =
      if b == 0x99
      then as_json (handle_as_simple_json Q unmarshal stream s)
      else if b == 0x78
      then as_gt06 (handle_as_gt06 Q stream fault s)
      else (s, left_open)

  -- `LoginHandler.handle`
  unfoldable pub handle : List Input → Bool → Server D → Server D × Welcome
  handle stream fault s = by_first stream fault s (peek stream)

  -- The connections that `runListener` accepts, each with its number, one login after the other.
  unfoldable pub run_listener :
      ℕ → List (List Input × Bool) → Server D → ℕ × Server D × List (ℕ × Welcome)
  unfolding handle
  run_listener cid [] s = (cid, s, [])
  run_listener cid ((stream, fault) ∷ more) s =
      let (s', w) = handle stream fault s in
      let (cid', s'', ws) = run_listener ((cid + 1) % 2 ^ 64) more s' in (cid', s'', (cid, w) ∷ ws)
