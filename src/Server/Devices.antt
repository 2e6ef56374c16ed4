-- ===== src/Server/Devices.antt =====
-- The list of devices of internal/gpsv2/server/server.go.
use gpstracker_backend.Base.{
  ℕ, ◌≡◌, refl, ap, ◌∙◌, true, false, List, [], ◌∷◌, Option, none, some, ◌==◌, if◌then◌else◌, inl,
  inr, Bool-cases, ==_iff, ==_refl,
}
use gpstracker_backend.Base.Go.{Result, ok, err, panic}
use gpstracker_backend.Device.{Serial}
use gpstracker_backend.Gt06.State.{DeviceConfig}
use gpstracker_backend.Server.{
  Kind, device_gt06, Entry, DeviceList, lookup, assign, entry_of, device_nsn, add_device,
  purge_device, purged, get_device, Database, Server, Login, rejected, replaced, created, crashed,
  registered, register, register_and_fetch_config_attr, attached, attach,
}

module _ {A : Type 0} where
  pub lookup-assign : (k : ℕ) (a : A) (l : List (ℕ × A)) → lookup k (assign k a l) ≡ some a
  lookup-assign k a [] = rw (==_refl k) refl
  lookup-assign k a ((j, b) ∷ rest) = elim (Bool-cases (j == k)) [
    | inl y ↦ rw (y, y) refl
    | inr n ↦ rw (n, n) (lookup-assign k a rest)
  ]

  pub lookup-assign_other :
      (i k : ℕ) (a : A) (l : List (ℕ × A)) → (k == i) ≡ false → lookup i (assign k a l) ≡ lookup i l
  lookup-assign_other i k a [] h = rw h refl
  lookup-assign_other i k a ((j, b) ∷ rest) h = elim (Bool-cases (j == k)) [
    | inl y ↦ rw (y, ap (λ z. z == i) ((==_iff j k).0 y) ∙ h) refl
    | inr n ↦ rw n (ap (λ r. if j == i then some b else r) (lookup-assign_other i k a rest h))
  ]

abbrev pub new_entry : Serial → ℕ → ℕ → Kind → Entry
new_entry ser tid dev kind = record {
  dev = dev;
  kind = kind;
  tracker_id = tid;
  serial = ser;
  deleted = false;
}

-- A device that was added is found by its serial number and by its tracker id, and is not marked as
-- deleted.
pub device_nsn-add_device :
    (ser : Serial) (tid dev : ℕ) (kind : Kind) (l : DeviceList)
    → (device_nsn ser.nsn (add_device ser tid dev kind l) ≡ some (new_entry ser tid dev kind))
      × (get_device tid (add_device ser tid dev kind l) ≡ some (new_entry ser tid dev kind))
unfolding device_nsn add_device get_device
device_nsn-add_device ser tid dev kind l = (
  ap (λ t. entry_of t (assign tid (new_entry ser tid dev kind) l.list))
        (lookup-assign ser.nsn tid l.nsnlist)
      ∙ lookup-assign tid (new_entry ser tid dev kind) l.list,
  lookup-assign tid (new_entry ser tid dev kind) l.list,
)

-- Every other tracker keeps its entry.
pub get_device-add_device_other :
    (ser : Serial) (tid dev i : ℕ) (kind : Kind) (l : DeviceList)
    → (tid == i) ≡ false
    → get_device i (add_device ser tid dev kind l) ≡ get_device i l
unfolding get_device add_device
get_device-add_device_other ser tid dev i kind l h =
    lookup-assign_other i tid (new_entry ser tid dev kind) l.list h

module _ {D : Type 0} (Q : Database D) where
  attach_known :
      (ser : Serial) (s : Server D) (e : Entry)
      → device_nsn ser.nsn s.devices ≡ some e
      → e.deleted ≡ false
      → attach Q ser s ≡ (s, replaced e.dev)
  unfolding attach attached
  attach_known ser s e h d = rw h (rw d refl)

  registered_again :
      (ser : Serial) (s : Server D) (w : D × Result (ℕ × DeviceConfig)) (tid dev : ℕ)
      → (registered Q ser s w).1 ≡ created tid ser dev
      → device_nsn ser.nsn (registered Q ser s w).0.devices
        ≡ some (new_entry ser tid dev device_gt06)
  unfolding registered
  registered_again ser s (db, err e) tid dev h = cc
  registered_again ser s (db, panic) tid dev h = cc
  registered_again ser s (db, ok (t, conf)) tid dev h = elim (Bool-cases conf.allow_connect) [
    | inl y ↦ rw y (
        (device_nsn-add_device ser t s.next_dev device_gt06 s.devices).0
        ∙ same t s.next_dev (rw y at h))
    | inr n ↦ cc (rw n at h)
  ]
    where
      id_of : Login → ℕ
      id_of rejected = tid
      id_of (replaced d) = tid
      id_of (created i z d) = i
      id_of crashed = tid

      dev_of : Login → ℕ
      dev_of rejected = dev
      dev_of (replaced d) = dev
      dev_of (created i z d) = d
      dev_of crashed = dev

      same :
          (i d : ℕ)
          → created i ser d ≡ created tid ser dev
          → some (new_entry ser i d device_gt06) ≡ some (new_entry ser tid dev device_gt06)
      same i d e = λ j. some (new_entry ser (id_of (e j)) (dev_of (e j)) device_gt06)

  pub attached_again :
      (ser : Serial) (s : Server D) (o : Option Entry) (tid dev : ℕ)
      → (attached Q ser s o).1 ≡ created tid ser dev
      → device_nsn ser.nsn (attached Q ser s o).0.devices ≡ some (new_entry ser tid dev device_gt06)
  unfolding attached register
  attached_again ser s none tid dev h = registered_again ser s _ tid dev h
  attached_again ser s (some e) tid dev h = elim (Bool-cases e.deleted) [
    | inl y ↦
        rw y (
          registered_again ser s (register_and_fetch_config_attr Q ser.nsn s.db) tid dev
            (rw y at h))
    | inr n ↦ cc (rw n at h)
  ]

  -- When a login has created a device, the next login under the same serial number replaces the
  -- connection of that device: it asks the database nothing and creates nothing.
  pub attach-attach :
      (ser : Serial) (s : Server D) (tid dev : ℕ)
      → (attach Q ser s).1 ≡ created tid ser dev
      → attach Q ser (attach Q ser s).0 ≡ ((attach Q ser s).0, replaced dev)
  attach-attach ser s tid dev h =
      attach_known ser (attach Q ser s).0 (new_entry ser tid dev device_gt06)
        (unfold attach in
          attached_again ser s (device_nsn ser.nsn s.devices) tid dev (unfold attach in h))
        refl

-- Purging a device stops it, but leaves the list as it was: the next login still finds the entry,
-- not marked as deleted. A tracker id that is not in the list is a panic.
pub purge_device_lem :
    (tid : ℕ) (l : DeviceList)
    → ((e : Entry) → get_device tid l ≡ some e → purge_device tid l ≡ ok (l, e.dev, true))
      × (get_device tid l ≡ none → purge_device tid l ≡ panic)
unfolding purge_device get_device
purge_device_lem tid l = ((λ e h. ap (λ o. purged o l) h), (λ h. ap (λ o. purged o l) h))
