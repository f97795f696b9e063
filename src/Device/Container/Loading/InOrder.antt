-- ===== src/Device/Container/Loading/InOrder.antt =====
-- The devices that `LDCloadDevices` loads stand in the container in the order of their rows.
use lielas.Base.{
  ℕ, suc, ◌≤◌, ◌<◌, ◌≡◌, ◌≢◌, ◌∙◌, refl, sym, true, false, Option, none, some, List, [], ◌∷◌, ◌++◌,
  ◌==◌, All, append_assoc, append-nil, arith, ==_iff, done,
}
use lielas.Lwp.Wkc.{Wkc, init_wkc}
use lielas.Lwp.Parse.{parse_wkc}
use lielas.Device.Slots.{Ptr}
use lielas.Device.Deletion.{created}
use lielas.Device.Container.{Ldc, missing, empty, holds, add}
use lielas.Device.Container.Lookup.{members, add-members}
use lielas.Device.Container.Loading.{Tables, Loads, load_moduls}
use lielas.Device.Container.Loading.Devices.{
  DeviceRow, ListedDevice, listed, Listed, row_fits, listed_device, list_new, list_device,
  list_devices, load_devices,
}

add-there : (l : Ldc) (p : Ptr) → l ≢ missing → (add true p l).1 ≢ missing
unfolding add
add-there missing p there = absurd (there refl)
add-there empty p there = λ e. cc e
add-there (holds f rest) p there = λ e. cc e

module _ {Real : Type 0} (rows : Tables Real) (fuel : ℕ) (left_wkc : Ptr → Wkc)
    (place : ℕ → Ptr) where
  -- The texts fit, the description is parsed, and the modules can be loaded.
  pub record IsLoadable (r : DeviceRow) : Type 0 where
    pub fits : row_fits r ≡ true
    pub wkc : Ptr → Wkc
    pub parsed : (p : Ptr) → parse_wkc fuel r.wkc (init_wkc (left_wkc p)) ≡ done (false, wkc p)
    pub loaded :
        (p : Ptr) (s : Loads Real)
        → (s' : Loads Real) × (load_moduls rows r.moduls
              (record s { members = created (rows.left p) })
            ≡ done s')
          × (s.calls ≤ s'.calls)

  -- At the address is a device with the texts of the row, the description that is parsed from its
  -- column, and the array of the modules that are loaded for its column of ids.
  abbrev pub IsLoaded : DeviceRow → Ptr → (Ptr → Option ListedDevice) → Type 0
  IsLoaded r p devices =
      (s : Loads Real) × (s' : Loads Real) × (w : Wkc) × (devices p
        ≡ some (record {
          id = rows.atoi r.id;
          address = r.address;
          mac = r.mac;
          mint = r.mint;
          pint = r.pint;
          aint = r.aint;
          moduls = s'.members;
          wkc = w;
        }))
      × (parse_wkc fuel r.wkc (init_wkc (left_wkc p)) ≡ done (false, w))
      × (load_moduls rows r.moduls (record s { members = created (rows.left p) }) ≡ done s')

  -- Each row with its address.
  unfoldable pub AreLoaded : List DeviceRow → List Ptr → (Ptr → Option ListedDevice) → Type 0
  AreLoaded [] [] devices = Unit
  AreLoaded [] (p ∷ ps) devices = ⊥
  AreLoaded (r ∷ rs) [] devices = ⊥
  AreLoaded (r ∷ rs) (p ∷ ps) devices = IsLoaded r p devices × AreLoaded rs ps devices

  list_new-calls :
      (p : Ptr) (d : ListedDevice) (s : Listed Real) (l : Ldc)
      → s.loads.calls ≤ (list_new rows fuel left_wkc p d (record s { ldc = l })).loads.calls
  unfolding list_new
  list_new-calls p d s missing = omega arith
  list_new-calls p d s empty = omega arith
  list_new-calls p d s (holds f rest) = omega arith

  list_device-added :
      (r : DeviceRow) (s : Listed Real)
      → IsLoadable r
      → ((i : ℕ) → rows.malloc i ≡ some (place i))
      → s.ldc ≢ missing
      → let p = place s.loads.calls in
        (s' : Listed Real) × (list_device rows fuel left_wkc r s ≡ done (none, s'))
        × (members s'.ldc ≡ members s.ldc ++ p ∷ [])
        × (s'.ldc ≢ missing)
        × IsLoaded r p s'.devices
        × ((q : Ptr) → q ≢ p → s'.devices q ≡ s.devices q)
        × (s.loads.calls < s'.loads.calls)
  unfolding list_device list_new
  list_device-added r s ok made there =
      let p = place s.loads.calls in
      let (s₂, run, more) = ok.loaded p (record s.loads { calls = suc s.loads.calls }) in
      let d = listed_device rows fuel left_wkc r s₂.members (ok.wkc p) in
      let same = (==_iff p p).1 refl in
      (
        list_new rows fuel left_wkc p d (record s { loads = s₂ }),
        rw (made s.loads.calls, ok.fits, ok.parsed p, run, list_device) refl,
        rw (made s₂.calls) (add-members s.ldc p there),
        rw (made s₂.calls) (add-there s.ldc p there),
        (
          record s.loads { calls = suc s.loads.calls },
          s₂,
          ok.wkc p,
          rw same refl,
          ok.parsed p,
          run,
        ),
        λ q ne. let other : (q == p) ≡ false = ground (arith, ne) in rw other refl,
        omega (arith, more, list_new-calls p d (record s { loads = s₂ }) s.ldc),
      )

  -- The devices are new, so those before them are kept.
  list_devices-added :
      (rs : List DeviceRow) (s : Listed Real)
      → All IsLoadable rs
      → ((i : ℕ) → rows.malloc i ≡ some (place i))
      → ((i j : ℕ) → i < j → place i ≢ place j)
      → s.ldc ≢ missing
      → (s' : Listed Real) × (ps : List Ptr) × (list_devices rows fuel left_wkc rs s
          ≡ done (listed, s'))
        × (members s'.ldc ≡ members s.ldc ++ ps)
        × AreLoaded rs ps s'.devices
        × ((q : Ptr) → ((j : ℕ) → s.loads.calls ≤ j → q ≢ place j) → s'.devices q ≡ s.devices q)
  unfolding list_devices AreLoaded
  list_devices-added [] s ok made apart there =
      (s, [], refl, sym (append-nil (members s.ldc)), tt, λ q new. refl)
  list_devices-added (r ∷ rs) s ok made apart there =
      let p = place s.loads.calls in
      let (s₁, one, here, there₁, (l, l', w, stored, parsed, run), others, more) =
        list_device-added r s ok.0 made there in
      let (s₂, ps, rest, behind, loaded, kept) = list_devices-added rs s₁ ok.1 made apart there₁ in
      (
        s₂,
        p ∷ ps,
        rw one rest,
        rw (behind, here) (append_assoc (members s.ldc) (p ∷ []) ps),
        (
          (
            l,
            l',
            w,
            kept p (λ j le. apart s.loads.calls j (omega (arith, more, le))) ∙ stored,
            parsed,
            run,
          ),
          loaded,
        ),
        λ q new.
            kept q (λ j le. new j (omega (arith, more, le)))
            ∙ others q (new s.loads.calls (omega arith)),
      )

  -- The rows of the table of devices are all loaded, and the devices stand in the container behind
  -- those before, in the order of the rows, each with the id and the texts of its row, the
  -- description that is parsed from its column, and the array of the modules that are loaded for
  -- its ids; there is a container, `malloc` succeeds with a new address at each call, the texts of
  -- the rows fit, and their descriptions and modules can be loaded.
  pub load_devices-in_order :
      (rs : List DeviceRow) (s : Listed Real)
      → All IsLoadable rs
      → ((i : ℕ) → rows.malloc i ≡ some (place i))
      → ((i j : ℕ) → i < j → place i ≢ place j)
      → s.ldc ≢ missing
      → (s' : Listed Real) × (ps : List Ptr) × (load_devices rows fuel left_wkc (some rs) s
          ≡ done (listed, s'))
        × (members s'.ldc ≡ members s.ldc ++ ps)
        × AreLoaded rs ps s'.devices
  unfolding load_devices
  load_devices-in_order rs s ok made apart there =
      let (s', ps, run, order, loaded, _) = list_devices-added rs s ok made apart there in
      (s', ps, run, order, loaded)
