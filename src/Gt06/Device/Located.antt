-- ===== src/Gt06/Device/Located.antt =====
-- From the location frames of a GT06 device to the calls of the store and the sublist.
use mathlib.Core.Path.{subst}
use gpstracker_backend.Base.{
  ℕ, ◌%◌, ◌^◌, ◌≡◌, refl, sym, ap, ◌∙◌, Bool, true, false, List, [], ◌∷◌, ◌++◌, map, length, All,
  ◌==◌, if◌then◌else◌, arith, append_assoc,
}
use gpstracker_backend.Base.Go.{Input, byte}
use gpstracker_backend.Base.Values.{Values, local}
use gpstracker_backend.Device.{Serial, Place}
use gpstracker_backend.Gt06.Message.{
  Message, payload_of, gt06_gps, status_information, gk310_gps, time_check,
}
use gpstracker_backend.Gt06.Parser.{GpsMessage, CellInfo, parse_gt06_gps_message}
use gpstracker_backend.Gt06.Parser.Report.{parse_gt06_gps_message-position_bytes}
use gpstracker_backend.Gt06.Parser.Fields.{
  RawPosition, IsRaw, position_bytes, meaning, IsCell, cell_bytes,
}
use gpstracker_backend.Gt06.Frame.Shape.{framed}
use gpstracker_backend.Gt06.Frame.{new_frame}
use gpstracker_backend.Gt06.Frame.RoundTrip.{
  accepted, read_message-accepted, payload_of-accepted, length-filled, length-framed,
}
use gpstracker_backend.Gt06.State.{
  cell_info_changed, cell_detail, Effect, put_location, sent_location, saved_event, DeviceConfig,
  Device, note,
}
use gpstracker_backend.Gt06.Device.{
  Next, go, Outside, cell_equal, store_location, send_location, handle_location, dispatch,
  get_location, after_read, iterate, rounds, run, event_run,
}

module _ (V : Values) where
  open V use {Time, minus_one32, zero32}

  -- A report of a device: a position and a cell, the serial of its frame and when it is read.
  pub record Report : Type 0 where
    pub raw : RawPosition
    pub cell : CellInfo
    pub serial : ℕ
    pub read : Time

  pub record IsReport (x : Report) : Type 0 where
    pub raw_fits : IsRaw x.raw
    pub cell_fits : IsCell x.cell

  abbrev pub payload : Report → List ℕ
  payload x = position_bytes x.raw (cell_bytes x.cell [])

  abbrev pub reports : List Report → List Input → List Input
  reports [] rest = rest
  reports (x ∷ xs) rest =
      map byte (new_frame V.checksum_x25 gt06_gps (payload x) x.serial) ++ reports xs rest

  abbrev pub says : Report → GpsMessage V
  says x = record { position = meaning V x.raw local; cell = x.cell }

  -- The last message of reports, or the one before them.
  abbrev pub last_says : List Report → GpsMessage V → GpsMessage V
  last_says [] l = l
  last_says (x ∷ xs) l = last_says xs (says x)

  -- The place of a message.
  abbrev pub place : GpsMessage V → Place V
  place l = record {
    latitude = l.position.latitude;
    longitude = l.position.longitude;
    altitude = zero32;
    speed = l.position.speed;
    timestamp = l.position.timestamp;
  }

  abbrev on : Bool → Effect V → List (Effect V)
  on true e = e ∷ []
  on false e = []

  abbrev off : Bool → Effect V → List (Effect V)
  off true e = []
  off false e = e ∷ []

  abbrev storing : Serial → GpsMessage V → Time → Effect V
  storing ser l t = put_location (record {
    nsn = ser.nsn;
    lon = l.position.latitude;
    lat = l.position.longitude;
    alt = minus_one32;
    speed = l.position.speed;
    gpst = l.position.timestamp;
    srvt = t;
  })

  abbrev sending : GpsMessage V → Time → Effect V
  sending l t = let p = l.position in sent_location p.latitude p.longitude p.speed p.timestamp t

  -- What a location makes the device call, the newest call first: the store, the sublist, and an
  -- event when the cell is another one than before.
  abbrev pub effects_for : DeviceConfig → Serial → CellInfo → GpsMessage V → Time → List (Effect V)
  effects_for conf ser cell l t =
      off (cell_equal l.cell cell) (saved_event cell_info_changed [] (cell_detail l.cell) t)
      ++ (on conf.sublist_send (sending l t) ++ on conf.store (storing ser l t))

  abbrev pub all_effects :
      DeviceConfig → Serial → CellInfo → List Report → List (Effect V) → List (Effect V)
  all_effects conf ser cell [] before = before
  all_effects conf ser cell (x ∷ xs) before =
      all_effects conf ser x.cell xs (effects_for conf ser cell (says x) x.read ++ before)

  -- The device behind a location.
  abbrev pub after : GpsMessage V → Time → Device V → Device V
  after l t dev = record dev {
    location = record { loc = l; time = t };
    effects = effects_for dev.conf dev.ser dev.location.loc.cell l t ++ dev.effects;
  }

  abbrev called : List (Effect V) → Device V → Device V
  called es dev = record dev { effects = es ++ dev.effects }

  noted :
      (b : Bool) (e : Effect V) (dev : Device V)
      → (if b then note V e dev else dev) ≡ called (on b e) dev
  noted true e dev = refl
  noted false e dev = refl

  noted_off :
      (b : Bool) (e : Effect V) (dev : Device V)
      → (if b then dev else note V e dev) ≡ called (off b e) dev
  noted_off true e dev = refl
  noted_off false e dev = refl

  handle_location-after :
      (l : GpsMessage V) (t : Time) (dev : Device V) → handle_location V l t dev ≡ after l t dev
  unfolding handle_location store_location send_location
  handle_location-after l t dev =
      let c = cell_equal l.cell dev.location.loc.cell in
      let e = saved_event cell_info_changed [] (cell_detail l.cell) t in
      ap (λ d. finish (send_location V l t d)) (noted dev.conf.store (storing dev.ser l t) dev)
      ∙ ap finish (
          noted dev.conf.sublist_send (sending l t)
            (called (on dev.conf.store (storing dev.ser l t)) dev))
      ∙ noted_off c e (record dev {
        location = record { loc = l; time = t };
        effects =
            on dev.conf.sublist_send (sending l t)
            ++ (on dev.conf.store (storing dev.ser l t) ++ dev.effects);
      })
      ∙ ap (λ es. record dev { location = record { loc = l; time = t }; effects = es })
          (regroup (off c e) (on dev.conf.sublist_send (sending l t))
            (on dev.conf.store (storing dev.ser l t)) dev.effects)
    where
      finish : Device V → Device V
      finish d =
          if cell_equal l.cell dev.location.loc.cell
          then record d { location = record { loc = l; time = t } }
          else note V (saved_event cell_info_changed [] (cell_detail l.cell) t)
              (record d { location = record { loc = l; time = t } })

      regroup : (a b c d : List (Effect V)) → a ++ (b ++ (c ++ d)) ≡ (a ++ (b ++ c)) ++ d
      regroup a b c d =
          ap (λ r. a ++ r) (sym (append_assoc b c d)) ∙ sym (append_assoc a (b ++ c) d)

module _ (V : Values) (O : Outside V) where
  open V use {Time}

  pub dispatch-payload :
      (sent : Bool) (x : Report V) (dev : Device V)
      → dev.msg.protocol ≡ gt06_gps
      → (payload_of dev.msg).vis ≡ payload V x
      → IsReport V x
      → dispatch V O sent x.read dev ≡ (after V (says V x) x.read dev, go sent)
  unfolding dispatch
  dispatch-payload sent x dev kind text v =
      rw
        (
          ap (λ k. k == time_check) kind,
          ap (λ k. k == status_information) kind,
          ap (λ k. k == gk310_gps) kind,
          ap (λ k. k == gt06_gps) kind,
          ap
                (λ t.
                  parse_gt06_gps_message V (record { vis = t; spare = (payload_of dev.msg).spare }))
                text
              ∙ parse_gt06_gps_message-position_bytes V x.raw x.cell (payload_of dev.msg).spare
                  v.raw_fits v.cell_fits,
        )
        (ap (λ d. (d, go sent)) (handle_location-after V (says V x) x.read dev))

  -- A report is read as a message that carries its payload, and is handled.
  pub iterate-payload :
      (sent : Bool) (x : Report V) (rest : List Input) (dev : Device V)
      → length dev.msg.buffer ≡ 1000
      → IsReport V x
      → (m : Message) × (length m.buffer ≡ 1000)
        × (m.protocol ≡ gt06_gps)
        × ((payload_of m).vis ≡ payload V x)
        × (iterate V O sent x.read
              (map byte (new_frame V.checksum_x25 gt06_gps (payload V x) x.serial) ++ rest)
              dev
            ≡ (rest, after V (says V x) x.read (record dev { msg = m }), go sent))
  unfolding iterate after_read
  iterate-payload sent x rest dev hb v =
      let (c1, c0, _, read) =
        read_message-accepted V.checksum_x25 dev.msg gt06_gps (payload V x) x.serial rest
          (omega arith) (omega arith) in
      let frame = framed gt06_gps (payload V x) x.serial c1 c0 in
      let m = accepted dev.msg gt06_gps (payload V x) (x.serial % 2 ^ 16) frame in
      (
        m,
        length-filled frame dev.msg.buffer
              (omega (arith, length-framed gt06_gps (payload V x) x.serial c1 c0))
            ∙ hb,
        refl,
        payload_of-accepted dev.msg gt06_gps (payload V x) x.serial c1 c0,
        rw read (
            ap (λ out. (rest, out.0, out.1))
              (dispatch-payload sent x (record dev { msg = m }) refl
                (payload_of-accepted dev.msg gt06_gps (payload V x) x.serial c1 c0) v)),
      )

  abbrev Handled :
      List (Report V) → List Input → Device V → Bool → List Input × Device V × Next → Type 0
  Handled xs rest dev sent out =
      (out.0 ≡ rest)
      × (out.1.effects ≡ all_effects V dev.conf dev.ser dev.location.loc.cell xs dev.effects)
      × (out.2 ≡ go sent)
      × (out.1.location.loc ≡ last_says V xs dev.location.loc)

  rounds-reports :
      (sent : Bool) (xs : List (Report V)) (rest : List Input) (dev : Device V)
      → length dev.msg.buffer ≡ 1000
      → All (IsReport V) xs
      → Handled xs rest dev sent
          (rounds V O (map (λ (x : Report V). x.read) xs) (reports V xs rest, dev, go sent))
  unfolding rounds
  rounds-reports sent [] rest dev hb v = (refl, refl, refl, refl)
  rounds-reports sent (x ∷ xs) rest dev hb (vx, v) =
      let (m, hm, kind, text, same) = iterate-payload sent x (reports V xs rest) dev hb vx in
      subst (λ y. Handled (x ∷ xs) rest dev sent (rounds V O (map (λ (z : Report V). z.read) xs) y))
        (sym same)
        (rounds-reports sent xs rest (after V (says V x) x.read (record dev { msg = m })) hm v)

  -- A device whose buffer has 1000 bytes sends reports, each in a frame of its own, with fields that
  -- fit their bytes. After the event that the device has started, `run` reads each of them and calls
  -- the store, the sublist, and the event store when the cell has changed, in the order sent and
  -- with what the bytes mean; then it reads on, and `GetLocation` gives the last of them.
  pub run-reports :
      (t0 : Time) (xs : List (Report V)) (rest : List Input) (dev : Device V)
      → length dev.msg.buffer ≡ 1000
      → All (IsReport V) xs
      → let out = run V O t0 (map (λ (x : Report V). x.read) xs) (reports V xs rest) dev in
        (out.0 ≡ rest)
        × (out.1.effects
            ≡ all_effects V dev.conf dev.ser dev.location.loc.cell xs (event_run V t0 dev).effects)
        × (out.2 ≡ go false)
        × (get_location V out.1 ≡ place V (last_says V xs dev.location.loc))
  unfolding run event_run get_location
  run-reports t0 xs rest dev hb v =
      let (left, calls, next, at) = rounds-reports false xs rest (event_run V t0 dev) hb v in
      (left, calls, next, ap (λ l. place V l) at)
