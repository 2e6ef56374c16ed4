-- ===== src/SimpleJson/Device/Stored.antt =====
-- From the location frames of a JSON device to the calls of the store and the sublist.
use gpstracker_backend.Base.{
  ℕ, ◌+◌, ◌/◌, ◌%◌, ◌≤◌, ◌≡◌, refl, sym, ap, ◌∙◌, Bool, true, false, List, [], ◌∷◌, ◌++◌, map,
  length, some, All, ◌==◌, arith,
}
use mathlib.Core.Path.{subst}
use gpstracker_backend.Base.Go.{Result, ok, Input, byte}
use gpstracker_backend.Base.Values.{Values}
use gpstracker_backend.Device.{Serial}
use gpstracker_backend.Gt06.State.{DeviceConfig}
use gpstracker_backend.SimpleJson.Frame.{FrameMessage, shown, read_message}
use gpstracker_backend.SimpleJson.Frame.Arrived.{
  frame_of, read_message-JsonVerdict, read_message_buffer,
}
use gpstracker_backend.Device.{Place}
use gpstracker_backend.SimpleJson.Device.{
  JsonNext, read_on, SimpleJson, Json, LocationMessage, Call, send_location, put, get_location,
  stored, sent, located, handle, after_read, iterate, rounds, run, location_update,
}

-- A location message as the device sends it.
abbrev pub location_frame : List ℕ → List ℕ
location_frame p = frame_of location_update (length p % 256) (length p / 256) p 0x0a

module _ (V : Values) where
  open V use {F64, F32, Time}

  -- A message: what is buffered and when it is read, its text and what the text says.
  pub record Sent : Type 0 where
    pub buffered : ℕ
    pub read : Time
    pub text : List ℕ
    pub says : LocationMessage V

  abbrev pub clock : Sent → ℕ × Time
  clock x = (x.buffered, x.read)

  abbrev pub stream : List Sent → List Input → List Input
  stream [] rest = rest
  stream (x ∷ xs) rest = map byte (location_frame x.text) ++ stream xs rest

  -- A call, when it is switched on.
  abbrev on : Bool → Call V → List (Call V)
  on true c = c ∷ []
  on false c = []

  abbrev sending : Sent → Call V
  sending x = send_location x.says.latitude x.says.longitude x.says.speed x.says.gps_time x.read

  abbrev storing : Serial → Sent → Call V
  storing ser x = put (record {
    nsn = ser.nsn;
    lon = x.says.latitude;
    lat = x.says.longitude;
    alt = x.says.altitude;
    speed = x.says.speed;
    gpst = x.says.gps_time;
    srvt = x.read;
  })

  -- What a message makes the device call, the store before the sublist since the newest is first.
  abbrev pub calls_for : DeviceConfig → Serial → Sent → List (Call V)
  calls_for conf ser x = on conf.store (storing ser x) ++ on conf.sublist_send (sending x)

  abbrev pub all_calls : DeviceConfig → Serial → List Sent → List (Call V) → List (Call V)
  all_calls conf ser [] before = before
  all_calls conf ser (x ∷ xs) before = all_calls conf ser xs (calls_for conf ser x ++ before)

  abbrev pub last_said : LocationMessage V → List Sent → LocationMessage V
  last_said l [] = l
  last_said l (x ∷ xs) = last_said x.says xs

  abbrev pub place_of : LocationMessage V → Place V
  place_of l = record {
    latitude = l.latitude;
    longitude = l.longitude;
    altitude = l.altitude;
    speed = l.speed;
    timestamp = l.gps_time;
  }

  abbrev remember : Sent → SimpleJson V → SimpleJson V
  remember x j = record j { last = record j.last { loc_time = x.read; loc = x.says } }

  abbrev called : List (Call V) → SimpleJson V → SimpleJson V
  called cs j = record j { calls = cs ++ j.calls }

  stored-sent :
      (b c : Bool) (x : Sent) (j : SimpleJson V)
      → stored V b x.says x.read (sent V c x.says x.read j)
        ≡ called (on b (storing j.ser x) ++ on c (sending x)) j
  stored-sent true true x j = refl
  stored-sent true false x j = refl
  stored-sent false true x j = refl
  stored-sent false false x j = refl

module _ (V : Values) (J : Json V) where
  open V use {Time}

  -- The text fits the buffer and is decoded to what it says.
  abbrev pub IsReadable : LocationMessage V → Sent V → Type 0
  IsReadable zero_loc x =
      (length x.text + 5 ≤ 1000) × (J.unmarshal_location x.text zero_loc ≡ some x.says)

  -- The device after a message, whose frame has left `m`.
  abbrev after : Sent V → FrameMessage → SimpleJson V → SimpleJson V
  after x m j = called V (calls_for V j.conf j.ser x) (remember V x (record j { msg = m }))

  after_read-located :
      (x : Sent V) (s : List Input) (r : Result (Unit {0})) (m : FrameMessage) (j : SimpleJson V)
      → r ≡ ok tt
      → m.protocol ≡ location_update
      → shown m.payload m.buffer ≡ x.text
      → J.unmarshal_location x.text j.parsed.loc ≡ some x.says
      → after_read V J x.buffered x.read s r (record j { msg = m }) ≡ (s, after x m j, read_on)
  unfolding handle located
  after_read-located x s r m j hr hp hs hu =
      rw (hr, ap (λ k. k == location_update) hp, hs, hu)
        (ap (λ k. (s, k, read_on))
          (stored-sent V j.conf.store j.conf.sublist_send x (remember V x (record j { msg = m }))))

  iterate-location_frame :
      (x : Sent V) (rest : List Input) (j : SimpleJson V)
      → length j.msg.buffer ≡ 1000
      → IsReadable j.parsed.loc x
      → (m : FrameMessage) × (length m.buffer ≡ 1000)
        × (iterate V J x.buffered x.read (map byte (location_frame x.text) ++ rest) j
            ≡ (rest, after x m j, read_on))
  unfolding iterate
  iterate-location_frame x rest j hb (fits, says) =
      let s : List Input = map byte (location_frame x.text) ++ rest in
      let (left, (good, kind, text)) =
        read_message-JsonVerdict j.msg location_update (length x.text % 256) (length x.text / 256)
          x.text 0x0a rest (omega arith) (omega arith) in
      let out = read_message s j.msg in
      (
        out.1,
        read_message_buffer s j.msg ∙ hb,
        after_read-located x out.0 out.2 out.1 j good kind text says
            ∙ ap (λ t. (t, after x out.1 j, read_on)) left,
      )

  abbrev Handled :
      List (Sent V) → List Input → SimpleJson V → List Input × SimpleJson V × JsonNext → Type 0
  Handled xs rest j out =
      (out.0 ≡ rest)
      × (out.1.calls ≡ all_calls V j.conf j.ser xs j.calls)
      × (get_location V out.1 ≡ place_of V (last_said V j.last.loc xs))
      × (out.2 ≡ read_on)

  rounds-stream :
      (xs : List (Sent V)) (rest : List Input) (j : SimpleJson V)
      → length j.msg.buffer ≡ 1000
      → All (IsReadable j.parsed.loc) xs
      → Handled xs rest j (rounds V J (map (clock V) xs) (stream V xs rest, j, read_on))
  unfolding rounds get_location
  rounds-stream [] rest j hb h = (refl, refl, refl, refl)
  rounds-stream (x ∷ xs) rest j hb (hx, h) =
      let (m, hm, same) = iterate-location_frame x (stream V xs rest) j hb hx in
      subst (λ y. Handled (x ∷ xs) rest j (rounds V J (map (clock V) xs) y)) (sym same)
        (rounds-stream xs rest (after x m j) hm h)

  -- A device with a buffer of 1000 bytes is sent location messages that fit it and can be decoded.
  -- `run` reads each, calls the sublist and the store for each in the order sent, as its
  -- configuration says, with the serial number of the device, and reads on; what `GetLocation`
  -- gives then is the last location.
  pub run-stream :
      (xs : List (Sent V)) (rest : List Input) (j : SimpleJson V)
      → length j.msg.buffer ≡ 1000
      → All (IsReadable j.parsed.loc) xs
      → let out = run V J (map (clock V) xs) (stream V xs rest) j in
        (out.0 ≡ rest)
        × (out.1.calls ≡ all_calls V j.conf j.ser xs j.calls)
        × (get_location V out.1 ≡ place_of V (last_said V j.last.loc xs))
        × (out.2 ≡ read_on)
  unfolding run
  run-stream = rounds-stream
