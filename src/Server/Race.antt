-- ===== src/Server/Race.antt =====
-- Two logins of internal/gpsv2/server/server.go that meet: the look at the list of devices and the
-- entry of a new one are two critical sections, with the database in between.
use mathlib.Core.Path.{subst}
use gpstracker_backend.Base.{
  ℕ, ◌+◌, ◌<◌, ◌≡◌, ◌≢◌, ap, ◌∙◌, sym, true, List, [], ◌∷◌, ◌==◌, ==_refl, All, none, some, arith,
  inl, inr, Bool-cases,
}
use gpstracker_backend.Base.Go.{Result, ok, err, panic}
use gpstracker_backend.Device.{Serial}
use gpstracker_backend.Gt06.State.{DeviceConfig}
use gpstracker_backend.Server.{
  device_gt06, device_nsn, get_device, purge_device, purged, add_device, assign, Entry, Database,
  Server, Login, rejected, replaced, created, crashed, registered, register,
  register_and_fetch_config_attr, attached,
}
use gpstracker_backend.Server.Devices.{new_entry, attached_again, device_nsn-add_device}

abbrev pub IsNot : ℕ → ℕ × Entry → Type 0
IsNot dev (k, e) = e.dev ≢ dev

abbrev pub IsOlder : ℕ → ℕ × Entry → Type 0
IsOlder dev (k, e) = e.dev < dev

older-IsNot : (dev : ℕ) (l : List (ℕ × Entry)) → All (IsOlder dev) l → All (IsNot dev) l
older-IsNot dev [] h = tt
older-IsNot dev ((k, e) ∷ l) (h, rest) =
    (λ same. absurd (omega (arith, h, same)), older-IsNot dev l rest)

-- When the second entry of a key is that of another device, the first device is in no entry.
assign_twice-IsNot :
    (tid dev : ℕ) (e e' : Entry) (l : List (ℕ × Entry))
    → All (IsNot dev) l
    → e'.dev ≢ dev
    → All (IsNot dev) (assign tid e' (assign tid e l))
assign_twice-IsNot tid dev e e' [] h n = rw (==_refl tid) (n, tt)
assign_twice-IsNot tid dev e e' ((j, b) ∷ l) (h, rest) n = elim (Bool-cases (j == tid)) [
  | inl y ↦ rw (y, y) (n, rest)
  | inr k ↦ rw (k, k) (h, assign_twice-IsNot tid dev e e' l rest n)
]

module _ {D : Type 0} (Q : Database D) where
  created_dev : ℕ → Login → ℕ
  created_dev d rejected = d
  created_dev d (replaced e) = d
  created_dev d (created i z e) = e
  created_dev d crashed = d

  created_tid : ℕ → Login → ℕ
  created_tid t rejected = t
  created_tid t (replaced e) = t
  created_tid t (created i z e) = i
  created_tid t crashed = t

  -- A created device has the next number, which is used up, and an entry under its tracker id.
  registered_numbers :
      (ser : Serial) (s : Server D) (w : D × Result (ℕ × DeviceConfig)) (tid dev : ℕ)
      → (registered Q ser s w).1 ≡ created tid ser dev
      → (s.next_dev ≡ dev)
        × ((registered Q ser s w).0.next_dev ≡ dev + 1)
        × ((registered Q ser s w).0.devices ≡ add_device ser tid dev device_gt06 s.devices)
  unfolding registered created_dev created_tid
  registered_numbers ser s (db, err e) tid dev h = cc
  registered_numbers ser s (db, panic) tid dev h = cc
  registered_numbers ser s (db, ok (t, conf)) tid dev h = elim (Bool-cases conf.allow_connect) [
    | inl y ↦
        let same : s.next_dev ≡ dev = ap (created_dev dev) (rw y at h) in
        let id : t ≡ tid = ap (created_tid tid) (rw y at h) in
        rw y
          (same, ap (λ n. n + 1) same, (λ i. add_device ser (id i) (same i) device_gt06 s.devices))
    | inr n ↦ cc (rw n at h)
  ]

  -- Two connections log in under the serial number of one tracker and both find no device in the
  -- list, since they look before either has entered its own; the database lets both create one, and
  -- the devices of the list have lower numbers than the next. Then each gets a device of its own;
  -- the list has the second under the serial number and under the tracker id, a purge of the tracker
  -- is one of the second, and the first is in no entry of the list.
  pub attached_race :
      (ser : Serial) (s : Server D) (tid dev dev' : ℕ)
      → (attached Q ser s none).1 ≡ created tid ser dev
      → (attached Q ser (attached Q ser s none).0 none).1 ≡ created tid ser dev'
      → All (IsOlder s.next_dev) s.devices.list
      → let out = (attached Q ser (attached Q ser s none).0 none).0.devices in
        let e = new_entry ser tid dev' device_gt06 in
        (dev ≢ dev')
        × (device_nsn ser.nsn out ≡ some e)
        × (get_device tid out ≡ some e)
        × (purge_device tid out ≡ ok (out, dev', true))
        × All (IsNot dev) out.list
  unfolding attached register get_device purge_device
  attached_race ser s tid dev dev' h k old =
      let (first, after, l1) =
        registered_numbers ser s (register_and_fetch_config_attr Q ser.nsn s.db) tid dev h in
      let (next, _, l2) = registered_numbers ser (attached Q ser s none).0 _ tid dev' k in
      let e1 = new_entry ser tid dev device_gt06 in
      let e2 = new_entry ser tid dev' device_gt06 in
      let same = l2 ∙ ap (add_device ser tid dev' device_gt06) l1 in
      let (by_nsn, by_tid) =
        device_nsn-add_device ser tid dev' device_gt06
          (add_device ser tid dev device_gt06 s.devices) in
      let other : dev' ≢ dev = λ e. absurd (omega (arith, after, next, e)) in
      (
        λ e. other (sym e),
        attached_again Q ser (attached Q ser s none).0 none tid dev' k,
        ap (get_device tid) same ∙ by_tid,
        ap (λ o. purged o (attached Q ser (attached Q ser s none).0 none).0.devices)
            (ap (get_device tid) same ∙ by_tid),
        subst (λ l. All (IsNot dev) l.list) (sym same)
            (unfold add_device in
              assign_twice-IsNot tid dev e1 e2 s.devices.list
                (older-IsNot dev s.devices.list
                  (subst (λ n. All (IsOlder n) s.devices.list) first old))
                other),
      )
