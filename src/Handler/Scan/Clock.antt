-- ===== src/Handler/Scan/Clock.antt =====
-- When `DeviceSetDatetime` finds the clock of a device right.
use lielas.Base.{
  ℕ, suc, ◌+◌, ◌<◌, ◌≡◌, refl, true, not, set, Bytes, List, [], ◌∷◌, ◌++◌, codes, ltb, All, length,
  drop, done, arith, append_assoc, pos, ltb_ℤ, sub_ℕ,
}
use lielas.Lwp.Attr.{is_sep}
use lielas.Lwp.Attr.Values.{Placed, IsPlain, join, get_attr_value-value}
use lielas.Handler.Coap.{put, get, Request, Reply, status_content}
use lielas.Handler.Logger.Interval.{string_of-value, recorded, send_cmd-recorded}
use lielas.Handler.Runmode.{Calendar}
use lielas.Handler.Scan.{DataTable, Target, TimeText, device_request, max_time_diff, set_datetime}
use lielas.Tm.{Tm}

module _ (t : DataTable) (c : Calendar) (x : TimeText c.Broken) (mktime : Tm → Tm)
    (print : Target → (cnr raw : ℕ) → Bytes) (answer : Reply) where
  -- On a device that answers every request with status 2.05 and its list of values,
  -- `DeviceSetDatetime` sends the time and then asks for the values, and returns 0 exactly when the
  -- time then is before that of the device plus four seconds, however far the device is ahead; at
  -- least one try is allowed, and the text of the time fits its buffer and the limit.
  pub set_datetime-accepts :
      (d : Target) {before : List Bytes} (p : Placed d.wkc.device (codes "datetime") before)
      (n k u sep now now' : ℕ) (buf recv v rest : Bytes) (w : List Request)
      → answer.status ≡ status_content
      → answer.buf ≡ join before ++ (v ++ sep ∷ rest)
      → All IsPlain before
      → IsPlain v
      → is_sep sep ≡ true
      → length (join before) + length v < 64
      → length v < length recv
      → x.read_time v ≡ c.later k (c.gmtime u)
      → set_datetime t c x
          (recorded answer)
          mktime
          print
          true
          buf
          recv
          now
          now'
          d
          (record { world = w; retries = suc n })
        ≡ done (
          not (ltb now' (u + k + max_time_diff)),
          record {
            world =
                w
                ++ (device_request d.address put (codes "datetime=" ++ x.coap_time (c.gmtime now))
                    ∷ device_request d.address get []
                    ∷ []);
            retries = suc n;
          },
        )
  unfolding set_datetime
  set_datetime-accepts d {before} p n k u sep now now' buf recv v rest w ok text plain plain_v stop
        short fits clock =
      let found = get_attr_value-value p v rest recv sep 64 plain plain_v stop short fits in
      let read = string_of-value v (drop (suc (length v)) recv) plain_v in
      let say = device_request d.address put (codes "datetime=" ++ x.coap_time (c.gmtime now)) in
      let ask = device_request d.address get [] in
      let cb : Reply = record { status = 0; len = 0; buf = buf } in
      let said = send_cmd-recorded answer n say cb w ok in
      let asked =
        send_cmd-recorded answer n ask (record answer { buf = set answer.buf 0 0 }) (w ++ say ∷ [])
          ok in
      let split = append_assoc w (say ∷ []) (ask ∷ []) in
      let late : ltb_ℤ (sub_ℕ now' (u + k)) (pos max_time_diff) ≡ ltb now' (u + k + max_time_diff) =
        ground arith in
      rw (said, asked, text, found, read, ok, clock, c.difftime-later now' u k, late, split) refl
