-- ===== src/Gt06/Parser/Report.antt =====
-- A whole location payload of internal/gpsv2/device/gt06/parser.go.
use gpstracker_backend.Base.{ℕ, ◌≡◌, refl, List, [], arith}
use gpstracker_backend.Base.Go.{ok, Slice, reslice_fits}
use gpstracker_backend.Base.Values.{Values, local}
use gpstracker_backend.Gt06.Parser.{CellInfo, parse_gt06_gps_message}
use gpstracker_backend.Gt06.Parser.Fields.{
  RawPosition, IsRaw, position_bytes, meaning, parse_gps_part-position_bytes, IsCell, cell_bytes,
  parse_lbs_part-cell_bytes,
}

-- A position and a cell that fit their bytes are decoded from the bytes of both.
pub parse_gt06_gps_message-position_bytes :
    (V : Values) (r : RawPosition) (c : CellInfo) (spare : List ℕ)
    → IsRaw r
    → IsCell c
    → parse_gt06_gps_message V (record { vis = position_bytes r (cell_bytes c []); spare = spare })
      ≡ ok (record { position = meaning V r local; cell = c })
unfolding parse_gt06_gps_message
parse_gt06_gps_message-position_bytes V r c spare raw cell =
    let d : Slice = record { vis = position_bytes r (cell_bytes c []); spare = spare } in
    rw
      (
        parse_gps_part-position_bytes V r local (cell_bytes c []) spare raw,
        reslice_fits d 18 26 (omega arith) (omega arith),
        parse_lbs_part-cell_bytes c [] spare cell,
      )
      refl
