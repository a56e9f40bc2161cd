-- ===== src/Request/Creation.antt =====
-- `RequestService.createRequest` in src/request/request.service.ts.
use readyon.Base.{
  any, any-last, ◌≢◌, ◌||◌, ◌==◌, ltb_ℤ, ltb_ℤ→≤ℤ, ◌<◌, ◌≤◌, ltb, leb, is_none, refl, inl, inr,
  Bool-cases, ◌+◌, ◌≡◌, false, none, [], ◌∷◌, ◌++◌, ℤ, pos, ◌≤ℤ◌, arith, ◌-ℤ◌, int_laws, Option,
}
use readyon.Types.{TimeOffRequestRow, BalanceHoldRow, Text, or_default, hq}
use readyon.Store.{Succeeds, M, now_iso, Returns, World, IsAtomic}
use readyon.Balance.Repository.{get_effective_available, find_by_employee_and_type}
use readyon.Balance.Held.{available-insert}
use readyon.Request.Repository.{new_request, has_overlap}
use readyon.Hold.Repository as Holds
use readyon.Request.Repository as Requests
use readyon.Store.Returns.{guard, transaction, refuse, weaken}
use readyon.Request.Inserts.{create_request_ok, create_hold_ok, create_request_err, create_hold_err}
use readyon.Request.Service.{
  to_params, CreateTimeOffRequestDto, CreatedRequest, create_request, create_request_tx,
  write_request,
}
use readyon.Audit

-- The rows that a creation adds.
abbrev pub request_of : Text → CreateTimeOffRequestDto → World → TimeOffRequestRow
request_of e dto w = new_request (to_params e dto) (w.uuid w.drawn) (now_iso w)

abbrev pub hold_of : Text → CreateTimeOffRequestDto → World → BalanceHoldRow
hold_of e dto w =
    Holds.new_hold (w.uuid w.drawn) e dto.leave_type (or_default dto.location hq)
      dto.hours_requested (w.uuid (w.drawn + 1)) (now_iso w)

-- The tables after a creation: a pending request and its hold are new; no projection, no outbox
-- entry and no idempotency key is touched.
abbrev pub Created : Text → CreateTimeOffRequestDto → World → CreatedRequest → World → Type 0
Created e dto w r w' =
    (w'.db.requests ≡ w.db.requests ++ request_of e dto w ∷ [])
    × (w'.db.holds ≡ w.db.holds ++ hold_of e dto w ∷ [])
    × (w'.db.projections ≡ w.db.projections)
    × (w'.db.entries ≡ w.db.entries)
    × (w'.db.keys ≡ w.db.keys)
    × (w'.iso ≡ w.iso)
    × (r.id ≡ w.uuid w.drawn)
    × (r.hold_id ≡ w.uuid (w.drawn + 1))
    × (any (λ (q : TimeOffRequestRow). q.id == w.uuid w.drawn) w.db.requests ≡ false)

-- What `createRequest` returns of the new rows.
abbrev created_view : TimeOffRequestRow → BalanceHoldRow → CreatedRequest
created_view r h = record {
  id = r.id;
  employee_id = r.employee_id;
  leave_type = r.leave_type;
  start_date = r.start_date;
  end_date = r.end_date;
  hours_requested = r.hours_requested;
  reason = r.reason;
  status = r.status;
  hold_id = h.id;
  version = r.version;
  created_at = r.created_at;
}

module _ (e : Text) (dto : CreateTimeOffRequestDto) (c : Option Text) (eff : ℤ) (w : World) where
  -- The world once the request is inserted.
  abbrev with_request : World
  with_request = record w {
    drawn = w.drawn + 1;
    db = record w.db { requests = w.db.requests ++ request_of e dto w ∷ [] };
  }

  abbrev requested : M BalanceHoldRow
  requested =
      Holds.create (w.uuid w.drawn) e dto.leave_type (or_default dto.location hq)
        dto.hours_requested

  request_fresh :
      Requests.violates (request_of e dto w) w.db ≡ false
      → any (λ (q : TimeOffRequestRow). q.id == w.uuid w.drawn) w.db.requests ≡ false
  unfolding Requests.violates
  request_fresh fine = ground arith

  write_request-Created : Returns (Created e dto w) (write_request e dto c eff w)
  unfolding write_request Audit.log
  write_request-Created = elim (Bool-cases (Requests.violates (request_of e dto w) w.db)) [
    | inl bad ↦ rw (create_request_err (to_params e dto) w bad, Returns) tt
    | inr fine ↦ elim (Bool-cases (Holds.violates (hold_of e dto w) with_request.db)) [
      | inl bad ↦
          rw
            (
              create_request_ok (to_params e dto) w fine,
              create_hold_err (w.uuid w.drawn) e dto.leave_type (or_default dto.location hq)
                  dto.hours_requested with_request bad,
              Returns,
            )
            tt
      | inr held ↦
          rw
            (
              create_request_ok (to_params e dto) w fine,
              create_hold_ok (w.uuid w.drawn) e dto.leave_type (or_default dto.location hq)
                  dto.hours_requested with_request held,
              Returns,
            )
            (refl, refl, refl, refl, refl, refl, refl, refl, request_fresh fine)
    ]
  ]

module _ (e : Text) (dto : CreateTimeOffRequestDto) (c : Option Text) (w : World) where
  abbrev loc : Text
  loc = or_default dto.location hq

  abbrev available : ℤ
  available = get_effective_available e dto.leave_type loc none w.db

  -- What a creation has checked, and what it has done.
  abbrev pub Granted : CreatedRequest → World → Type 0
  Granted r w' =
      (w.day w.clock_ms < dto.start_date)
      × (dto.start_date ≤ dto.end_date)
      × (has_overlap e dto.leave_type dto.start_date dto.end_date w.db ≡ false)
      × (pos 0 ≤ℤ get_effective_available e dto.leave_type loc none w'.db)
      × (get_effective_available e dto.leave_type loc none w'.db
          ≡ get_effective_available e dto.leave_type loc none w.db -ℤ dto.hours_requested)
      × Created e dto w r w'

  Created-available :
      (r : CreatedRequest) (w' : World)
      → is_none (find_by_employee_and_type e dto.leave_type loc w.db) ≡ false
      → Created e dto w r w'
      → get_effective_available e dto.leave_type loc none w'.db
        ≡ get_effective_available e dto.leave_type loc none w.db -ℤ dto.hours_requested
  Created-available r w' known made =
      available-insert e dto.leave_type loc (hold_of e dto w) w.db w'.db (λ missing. cc) made.2
        made.1 (ground arith)

  -- `createRequest` either raises and changes no table, or its dates lie in the future in order, no
  -- live request overlaps them, and the hours are taken from what was available and do not exceed
  -- it; then just the pending request and its hold are new, and no projection or outbox entry moves.
  pub create_request-IsAtomic : IsAtomic w.db Granted (create_request e dto c w)
  unfolding create_request create_request_tx
  create_request-IsAtomic =
      refuse w.db Granted (ltb dto.end_date dto.start_date) _ _ w refl λ ordered.
        refuse w.db Granted (leb dto.start_date (w.day w.clock_ms)) _ _ w refl λ future.
          transaction Granted (create_request_tx e dto c) w (
            guard Granted (is_none (find_by_employee_and_type e dto.leave_type loc w.db)) _ _ w
              λ known.
                guard Granted (has_overlap e dto.leave_type dto.start_date dto.end_date w.db) _ _ w
                  λ apart. guard Granted (ltb_ℤ available dto.hours_requested) _ _ w λ enough.
                    weaken (Created e dto w) Granted (write_request e dto c available w)
                      (write_request-Created e dto c available w)
                      (λ r w' made.
                        let taken = Created-available r w' known made in
                        (
                          ground arith,
                          ground arith,
                          apart,
                          rw taken
                              (omega (int_laws, ltb_ℤ→≤ℤ available dto.hours_requested enough)),
                          taken,
                          made,
                        )))

  -- No row has an identifier that the creation draws, and no hold belongs to the new request.
  abbrev pub IsFresh : Type 0
  IsFresh =
      (any (λ (q : TimeOffRequestRow). q.id == w.uuid w.drawn) w.db.requests ≡ false)
      × (any
            (λ (h : BalanceHoldRow). h.id == w.uuid (w.drawn + 1) || h.request_id == w.uuid w.drawn)
            w.db.holds
          ≡ false)

  request_valid :
      IsFresh
      → dto.start_date ≤ dto.end_date
      → pos 1 ≤ℤ dto.hours_requested
      → Requests.violates (request_of e dto w) w.db ≡ false
  unfolding Requests.violates
  request_valid fresh ordered positive = ground arith

  hold_valid :
      IsFresh
      → pos 1 ≤ℤ dto.hours_requested
      → Holds.violates (hold_of e dto w) (with_request e dto c (pos 0) w).db ≡ false
  unfolding Holds.violates
  hold_valid fresh positive = ground (
    arith,
    any-last (λ (q : TimeOffRequestRow). q.id == w.uuid w.drawn) w.db.requests (request_of e dto w),
  )

  -- With a known projection, future dates in order, no overlap, a positive number of hours that is
  -- available and fresh identifiers, `createRequest` returns.
  pub create_request_returns :
      dto.start_date ≤ dto.end_date
      → w.day w.clock_ms < dto.start_date
      → find_by_employee_and_type e dto.leave_type loc w.db ≢ none
      → has_overlap e dto.leave_type dto.start_date dto.end_date w.db ≡ false
      → pos 1 ≤ℤ dto.hours_requested
      → dto.hours_requested ≤ℤ get_effective_available e dto.leave_type loc none w.db
      → IsFresh
      → Succeeds (create_request e dto c w)
  unfolding create_request create_request_tx write_request Audit.log
  create_request_returns ordered future known apart positive enough fresh =
      let c1 : ltb dto.end_date dto.start_date ≡ false = ground arith in
      let c2 : leb dto.start_date (w.day w.clock_ms) ≡ false = ground arith in
      let c3 : is_none (find_by_employee_and_type e dto.leave_type loc w.db) ≡ false =
        ground arith in
      let c5 : ltb_ℤ available dto.hours_requested ≡ false = ground arith in
      rw
        (
          c1,
          c2,
          c3,
          apart,
          c5,
          create_request_ok (to_params e dto) w (request_valid fresh ordered positive),
          create_hold_ok (w.uuid w.drawn) e dto.leave_type loc dto.hours_requested
              (with_request e dto c (pos 0) w) (hold_valid fresh positive),
          Succeeds,
        )
        tt
