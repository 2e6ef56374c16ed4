-- ===== src/Web/Tracker/Settings.antt =====
-- What a change of a tracker's settings or name has for an effect.
use gpstracker_backend.Base.Int.{ℤ}
use gpstracker_backend.Base.{ℕ, ◌≡◌, refl, ap, ◌∙◌, Bool, false, Option, none, some, ◌==◌}
use gpstracker_backend.Base.Go.{ok}
use gpstracker_backend.Gt06.State.{DeviceConfig}
use gpstracker_backend.Server.{lookup}
use gpstracker_backend.Server.Devices.{lookup-assign, lookup-assign_other}
use gpstracker_backend.Web.Tracker.{
  Value, flag, number, text, Object, TrackerConfigs, with_value, merge, read_config, bool_field,
  number_field, allow_connect_key, send_sublist_key, sublist_send_key, store_key, broadcast_key,
  log_level_key, read_deadline_key,
}

-- A field of a request, or what was there before.
abbrev pub or_else {ℓ} : {A : Type ℓ} → Option A → A → A
or_else none a = a
or_else (some b) a = b

abbrev or_old : {A : Type 0} → (A → Value) → Option A → Option Value → Option Value
or_old f none v = v
or_old f (some a) v = some (f a)

lookup-with_value :
    {A : Type 0} (f : A → Value) (k : ℕ) (a : Option A) (o : Object)
    → lookup k (with_value f k a o) ≡ or_old f a (lookup k o)
lookup-with_value f k none o = refl
lookup-with_value f k (some a) o = lookup-assign k (f a) o

lookup-with_value_other :
    {A : Type 0} (f : A → Value) (i k : ℕ) (a : Option A) (o : Object)
    → (k == i) ≡ false
    → lookup i (with_value f k a o) ≡ lookup i o
lookup-with_value_other f i k none o h = refl
lookup-with_value_other f i k (some a) o h = lookup-assign_other i k (f a) o h

bool_field-or_old :
    (a : Option Bool) (v : Option Value) (b : Bool)
    → bool_field v ≡ ok b
    → bool_field (or_old flag a v) ≡ ok (or_else a b)
bool_field-or_old none v b h = h
bool_field-or_old (some a) v b h = refl

number_field-or_old :
    (a : Option ℤ) (v : Option Value) (b : ℤ)
    → number_field v ≡ ok b
    → number_field (or_old number a v) ≡ ok (or_else a b)
number_field-or_old none v b h = h
number_field-or_old (some a) v b h = refl

-- The fields of a configuration can be read.
abbrev pub Reads : Object → DeviceConfig → Type 0
Reads o c =
    (bool_field (lookup allow_connect_key o) ≡ ok c.allow_connect)
    × (bool_field (lookup send_sublist_key o) ≡ ok c.sublist_send)
    × (bool_field (lookup store_key o) ≡ ok c.store)
    × (bool_field (lookup broadcast_key o) ≡ ok c.broadcast)
    × (number_field (lookup read_deadline_key o) ≡ ok c.read_deadline)

module _ (c : TrackerConfigs) (o : Object) where
  -- The object after the first fields of the request.
  abbrev after1 : Object
  after1 = with_value flag allow_connect_key c.allow_connect o

  abbrev after2 : Object
  after2 = with_value flag sublist_send_key c.sublist_send after1

  abbrev after3 : Object
  after3 = with_value flag store_key c.store after2

  abbrev after4 : Object
  after4 = with_value flag broadcast_key c.broadcast after3

  abbrev after5 : Object
  after5 = with_value text log_level_key c.log_level after4

  -- The last fields do not touch another key.
  kept_by_last :
      (i : ℕ)
      → (read_deadline_key == i) ≡ false
      → (log_level_key == i) ≡ false
      → lookup i (merge c o) ≡ lookup i after4
  unfolding merge
  kept_by_last i h k =
      lookup-with_value_other number i read_deadline_key c.read_deadline after5 h
      ∙ lookup-with_value_other text i log_level_key c.log_level after4 k

  -- Nor do the first ones.
  kept_by_first :
      (i : ℕ)
      → (sublist_send_key == i) ≡ false
      → (allow_connect_key == i) ≡ false
      → lookup i after2 ≡ lookup i o
  kept_by_first i h k =
      lookup-with_value_other flag i sublist_send_key c.sublist_send after1 h
      ∙ lookup-with_value_other flag i allow_connect_key c.allow_connect o k

  kept_by_stores :
      (i : ℕ)
      → (broadcast_key == i) ≡ false
      → (store_key == i) ≡ false
      → lookup i after4 ≡ lookup i after2
  kept_by_stores i h k =
      lookup-with_value_other flag i broadcast_key c.broadcast after3 h
      ∙ lookup-with_value_other flag i store_key c.store after2 k

  allow_connect-merge :
      lookup allow_connect_key (merge c o)
      ≡ or_old flag c.allow_connect (lookup allow_connect_key o)
  allow_connect-merge =
      kept_by_last allow_connect_key refl refl
      ∙ kept_by_stores allow_connect_key refl refl
      ∙ lookup-with_value_other flag allow_connect_key sublist_send_key c.sublist_send after1 refl
      ∙ lookup-with_value flag allow_connect_key c.allow_connect o

  send_sublist-merge : lookup send_sublist_key (merge c o) ≡ lookup send_sublist_key o
  send_sublist-merge =
      kept_by_last send_sublist_key refl refl
      ∙ kept_by_stores send_sublist_key refl refl
      ∙ kept_by_first send_sublist_key refl refl

  store-merge : lookup store_key (merge c o) ≡ or_old flag c.store (lookup store_key o)
  store-merge =
      kept_by_last store_key refl refl
      ∙ lookup-with_value_other flag store_key broadcast_key c.broadcast after3 refl
      ∙ lookup-with_value flag store_key c.store after2
      ∙ ap (or_old flag c.store) (kept_by_first store_key refl refl)

  broadcast-merge :
      lookup broadcast_key (merge c o) ≡ or_old flag c.broadcast (lookup broadcast_key o)
  broadcast-merge =
      kept_by_last broadcast_key refl refl
      ∙ lookup-with_value flag broadcast_key c.broadcast after3
      ∙ ap (or_old flag c.broadcast) (
          lookup-with_value_other flag broadcast_key store_key c.store after2 refl
          ∙ kept_by_first broadcast_key refl refl)

  read_deadline-merge :
      lookup read_deadline_key (merge c o)
      ≡ or_old number c.read_deadline (lookup read_deadline_key o)
  unfolding merge
  read_deadline-merge =
      lookup-with_value number read_deadline_key c.read_deadline after5
      ∙ ap (or_old number c.read_deadline) (
          lookup-with_value_other text read_deadline_key log_level_key c.log_level after4 refl
          ∙ kept_by_stores read_deadline_key refl refl
          ∙ kept_by_first read_deadline_key refl refl)

  -- What an administrator changes is what a device reads the next time, and what is not named in
  -- the request stays, with one exception: the change of `sublist_send` has no effect, since it is
  -- stored under another key than the one that is read.
  pub read_config-merge :
      (d : DeviceConfig)
      → Reads o d
      → read_config (merge c o)
        ≡ ok (record {
          allow_connect = or_else c.allow_connect d.allow_connect;
          sublist_send = d.sublist_send;
          store = or_else c.store d.store;
          broadcast = or_else c.broadcast d.broadcast;
          read_deadline = or_else c.read_deadline d.read_deadline;
        })
  unfolding read_config
  read_config-merge d (a, s, t, b, n) =
      rw
        (
          ap bool_field allow_connect-merge ∙ bool_field-or_old c.allow_connect _ d.allow_connect a,
          ap bool_field send_sublist-merge ∙ s,
          ap bool_field store-merge ∙ bool_field-or_old c.store _ d.store t,
          ap bool_field broadcast-merge ∙ bool_field-or_old c.broadcast _ d.broadcast b,
          ap number_field read_deadline-merge
              ∙ number_field-or_old c.read_deadline _ d.read_deadline n,
        )
        refl
