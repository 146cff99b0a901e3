-- ===== src/Otp/OneTime.antt =====
-- A code is good once: presenting it succeeds and uses it up.
use ntut_network_and_system.Base.{
  ℕ, ◌<◌, ◌≡◌, ◌∙◌, true, false, some, List, arith, get_elem?, get_elem?-lt, get_elem?-set,
  get_elem?-set_self, set, set-set, length, done,
}
use ntut_network_and_system.Base.Int.{pos}
use ntut_network_and_system.CString.{str_eq, c_str, terminated, str_eq_trans, str_eq_sym}
use ntut_network_and_system.Otp.{
  OtpEntry, OtpIpcRequest, OtpIpcResponse, decimal, free_or_same, used_by, find_entry, fill_slot,
  generate_otp, verify_otp,
}
use ntut_network_and_system.Otp.Codes.{find_entry-at, find_entry-none}
use ntut_network_and_system.Otp.Issue.{
  IsSized, IsTable, IsRequest, code_of, fill_slot-done, verify_finds,
}

-- The right code for the first entry in use of its account.
pub verify_otp-right :
    (req : OtpIpcRequest) (db : List OtpEntry) (i : ℕ) (e : OtpEntry)
    → find_entry (used_by req.account) 0 db ≡ some i
    → get_elem? db i ≡ some e
    → str_eq e.otp req.otp_code ≡ true
    → ((verify_otp req db).0.status ≡ pos 1)
      × ((verify_otp req db).1 ≡ set db i (record e { used = false }))
unfolding verify_otp
verify_otp-right req db i e h at same = (ground arith, ground arith)

-- No entry of the account is in use.
pub verify_otp-none :
    (req : OtpIpcRequest) (db : List OtpEntry)
    → ((j : ℕ) (e : OtpEntry) → get_elem? db j ≡ some e → used_by req.account e ≡ false)
    → ((verify_otp req db).0.status ≡ pos 0) × ((verify_otp req db).1 ≡ db)
unfolding verify_otp
verify_otp-none req db h =
    let absent = find_entry-none (used_by req.account) 0 db h in (ground arith, ground arith)

generate_otp-room :
    (rand_value now : ℕ) (req : OtpIpcRequest) (db : List OtpEntry) (slot : ℕ)
    → find_entry (free_or_same req.account) 0 db ≡ some slot
    → generate_otp rand_value now req db ≡ fill_slot rand_value now req db slot
unfolding generate_otp
generate_otp-room rand_value now req db slot room = rw (room, generate_otp)

-- The only entry in use for the account, if there is one, is at `slot`.
abbrev pub OnlySlot : List ℕ → ℕ → List OtpEntry → Type 0
OnlySlot account slot db =
    (j : ℕ) (e : OtpEntry) → get_elem? db j ≡ some e → used_by account e ≡ true → j ≡ slot

-- A request that presents `code` for `account`, each compared as a C string.
abbrev pub Presents : List ℕ → List ℕ → OtpIpcRequest → Type 0
Presents account code req = (str_eq account req.account ≡ true) × (str_eq code req.otp_code ≡ true)

module _ (rand_value now : ℕ) (req : OtpIpcRequest) (db : List OtpEntry) (slot : ℕ)
    (table : IsTable db) (ok : IsRequest req)
    (room : find_entry (free_or_same req.account) 0 db ≡ some slot) where
  -- What a generation leaves in its slot, and what it answers.
  pub generate_otp-issues :
      (res : OtpIpcResponse) × (e' : OtpEntry) × (generate_otp rand_value now req db
        ≡ done (res, set db slot e'))
      × (res.status ≡ pos 1)
      × (c_str res.otp_code ≡ decimal (code_of rand_value))
      × (terminated res.otp_code ≡ true)
      × (str_eq e'.otp res.otp_code ≡ true)
      × (str_eq e'.account req.account ≡ true)
      × (e'.used ≡ true)
      × IsSized e'
  generate_otp-issues =
      let (e, at, t) = find_entry-at (free_or_same req.account) db slot room in
      let (res, e', run, status, code, ended, same_otp, same_account, used, sized) =
        fill_slot-done rand_value now req db slot e ok at (table slot e at) in
      (
        res,
        e',
        generate_otp-room rand_value now req db slot room ∙ run,
        status,
        code,
        ended,
        same_otp,
        same_account,
        used,
        sized,
      )

  slot_in_range : slot < length db
  slot_in_range =
      let (e, at, t) = find_entry-at (free_or_same req.account) db slot room in
      get_elem?-lt db slot at

  pub presented :
      (res : OtpIpcResponse) (e' : OtpEntry)
      → str_eq e'.otp res.otp_code ≡ true
      → str_eq e'.account req.account ≡ true
      → e'.used ≡ true
      → (vreq : OtpIpcRequest) → Presents req.account res.otp_code vreq
      → ((verify_otp vreq (set db slot e')).0.status ≡ pos 1)
        × ((verify_otp vreq (set db slot e')).1 ≡ set db slot (record e' { used = false }))
  presented res e' same_otp same_account used vreq p =
      let (status, table') =
        verify_otp-right vreq (set db slot e') slot e'
          (verify_finds req.account vreq.account slot db e' room p.0 same_account used)
          (get_elem?-set_self db slot e' slot_in_range)
          (str_eq_trans e'.otp res.otp_code vreq.otp_code same_otp ∙ p.1) in
      (status, table' ∙ set-set db slot e' (record e' { used = false }))

  -- A generated code is accepted for its account.
  pub generate_then_verify :
      (res : OtpIpcResponse) × (db' : List OtpEntry) × (generate_otp rand_value now req db
        ≡ done (res, db'))
      × (res.status ≡ pos 1)
      × (c_str res.otp_code ≡ decimal (code_of rand_value))
      × ((vreq : OtpIpcRequest)
          → Presents req.account res.otp_code vreq
          → (verify_otp vreq db').0.status ≡ pos 1)
  generate_then_verify =
      let (res, e', run, status, code, ended, same_otp, same_account, used, sized) =
        generate_otp-issues in
      (
        res,
        set db slot e',
        run,
        status,
        code,
        λ vreq p. (presented res e' same_otp same_account used vreq p).0,
      )

  -- Where the table has a slot for the account of a request, and no entry in use for the account
  -- but in that slot, a generation succeeds. Presenting its code for the account then succeeds,
  -- and after that every verification for the account fails, whatever code it presents. The
  -- entries have arrays of the right sizes and the account of the request is a C string in its
  -- 32 bytes.
  pub code_opens_once :
      OnlySlot req.account slot db
      → (res : OtpIpcResponse) × (db' : List OtpEntry) × (generate_otp rand_value now req db
          ≡ done (res, db'))
        × (res.status ≡ pos 1)
        × ((vreq again : OtpIpcRequest)
            → Presents req.account res.otp_code vreq
            → str_eq req.account again.account ≡ true
            → ((verify_otp vreq db').0.status ≡ pos 1)
              × ((verify_otp again (verify_otp vreq db').1).0.status ≡ pos 0))
  code_opens_once only =
      let (res, e', run, status, code, ended, same_otp, same_account, used, sized) =
        generate_otp-issues in
      (
        res,
        set db slot e',
        run,
        status,
        λ vreq again p q.
            let (opened, left) = presented res e' same_otp same_account used vreq p in
            (opened, rw left (verify_otp-none again _ (used_up e' again.account q)).0),
      )
    where
      used_up :
          (e' : OtpEntry) (other : List ℕ)
          → str_eq req.account other ≡ true
          → (j : ℕ) (e : OtpEntry) → get_elem? (set db slot (record e' { used = false })) j ≡ some e
          → used_by other e ≡ false
      used_up e' other q j e h = ground (
        arith,
        get_elem?-set db slot j (record e' { used = false }) slot_in_range,
        only j e,
        str_eq_trans req.account other e.account q,
        str_eq_sym req.account e.account,
        str_eq_sym other e.account,
      )
