-- ===== src/Clients/Retry.antt =====
-- src/clients/src/placement/mod.rs: `retry_call`, with `retry_times` of src/clients/src/lib.rs. The
-- pauses between the attempts are left out.
use mathlib.Core.Option.{get_or}
use robustmq_geek.Prelude.{
  ℕ, zero, suc, ◌+◌, ◌*◌, ◌%◌, ◌<◌, ◌≡◌, refl, true, false, Option, none, some, List, [], ◌∷◌, map,
}
use robustmq_geek.Prelude.{
  Bytes, Text, Result, ok, err, done, Action, ◌>>=◌, pure, panic, if◌then◌else◌, length, arith,
  is_empty, unwrap_some, get_elem?, continue_congr, ltb,
}
use robustmq_geek.Common.Errors.{RobustMqError}
use robustmq_geek.Clients.Pool.{Network, Pools}
use robustmq_geek.Clients.Calls.{
  PlacementCenterService, kv, open_raft, PlacementCenterInterface, ClientFormats, kv_interface_call,
  openraft_interface_call,
}

abbrev pub retry_times : ℕ
retry_times = 3

abbrev pub retry_sleep_time : ℕ → ℕ
retry_sleep_time times = times * 2

module _ ⦃N : Network⦄ ⦃F : ClientFormats⦄ where
  abbrev pub interface_call :
      PlacementCenterService
      → PlacementCenterInterface
      → Text
      → Bytes
      → Action Pools (Result RobustMqError Bytes)
  interface_call kv interface addr request = kv_interface_call interface addr request
  interface_call open_raft interface addr request = openraft_interface_call interface addr request

  -- The address of an attempt; `times % addrs.len()` panics for no addresses.
  unfoldable pub address : List Text → ℕ → Action Pools Text
  address addrs times =
      if is_empty addrs then panic else unwrap_some (get_elem? addrs (times % length addrs))

  -- The loop, on fuel that counts the rounds: `none` is a loop that is still running.
  unfoldable pub retry :
      ℕ
      → PlacementCenterService
      → PlacementCenterInterface
      → List Text
      → Bytes
      → ℕ
      → Action Pools (Option (Result RobustMqError Bytes))
  retry zero service interface addrs request times = pure none
  retry (suc rounds) service interface addrs request times = do
    addr ← address addrs times
    result ← interface_call service interface addr request
    elim result [
      | ok bytes ↦ pure (some (ok bytes))
      | err e ↦
          let again = retry rounds service interface addrs request (times + 1) in
          if ltb retry_times times then pure (some (err e)) else again
    ]

  -- `times` starts at 1 and a failure at 4 ends the loop, so four rounds are enough.
  unfoldable pub retry_call :
      PlacementCenterService
      → PlacementCenterInterface
      → List Text
      → Bytes
      → Action Pools (Option (Result RobustMqError Bytes))
  retry_call service interface addrs request = retry 4 service interface addrs request 1

get_elem?-lt : (xs : List Text) (i : ℕ) → i < length xs → (x : Text) × (get_elem? xs i ≡ some x)
get_elem?-lt [] i h = elim h [ ]
get_elem?-lt (x ∷ xs) zero h = (x, refl)
get_elem?-lt (x ∷ xs) (suc i) h = get_elem?-lt xs i (omega arith)

-- The address that an attempt uses, in turn round the list from its second one on.
abbrev pub pick : Text → List Text → ℕ → Text
pick first rest times = get_or (get_elem? (first ∷ rest) (times % suc (length rest))) first

module _ ⦃N : Network⦄ ⦃F : ClientFormats⦄ where
  address_lem :
      (first : Text) (rest : List Text) (times : ℕ) (s : Pools)
      → address (first ∷ rest) times s ≡ done (pick first rest times) s
  unfolding address
  address_lem first rest times s =
      let (x, p) = get_elem?-lt (first ∷ rest) (times % suc (length rest)) (omega arith) in rw p

  module _ (call : Text → Action Pools (Result RobustMqError Bytes)) where
    -- Calls the addresses in turn until one succeeds; the result of the last one counts.
    pub first_success : Text → List Text → Action Pools (Option (Result RobustMqError Bytes))
    first_success addr [] = do result ← call addr; pure (some result)
    first_success addr (next ∷ addrs) = do
      result ← call addr
      elim result [ ok bytes ↦ pure (some (ok bytes)) | err e ↦ first_success next addrs ]

  module _ (service : PlacementCenterService) (interface : PlacementCenterInterface) (first : Text)
      (rest : List Text) (request : Bytes) where
    abbrev call : Text → Action Pools (Result RobustMqError Bytes)
    call addr = interface_call service interface addr request

    retry-last :
        (rounds times : ℕ) (s : Pools)
        → ltb retry_times times ≡ true
        → retry (suc rounds) service interface (first ∷ rest) request times s
          ≡ first_success call (pick first rest times) [] s
    unfolding retry first_success
    retry-last rounds times s late =
        rw (address_lem first rest times s)
          (continue_congr (call (pick first rest times) s) _ _ ends)
      where
        ends :
            (r : Result RobustMqError Bytes) (s' : Pools)
            → (elim r as (λ _. Action Pools (Option (Result RobustMqError Bytes))) [
              | ok bytes ↦ pure (some (ok bytes))
              | err e ↦
                  if ltb retry_times times
                  then pure (some (err e))
                  else retry rounds service interface (first ∷ rest) request (times + 1)
            ])
                s'
              ≡ done (some r) s'
        ends (ok bytes) s' = refl
        ends (err e) s' = rw late

    retry-more :
        (rounds times : ℕ) (later : List Text) (s : Pools)
        → ltb retry_times times ≡ false
        → ((s' : Pools)
            → retry rounds service interface (first ∷ rest) request (times + 1) s'
              ≡ first_success call (pick first rest (times + 1)) later s')
        → retry (suc rounds) service interface (first ∷ rest) request times s
          ≡ first_success call (pick first rest times) (pick first rest (times + 1) ∷ later) s
    unfolding retry first_success
    retry-more rounds times later s early h =
        rw (address_lem first rest times s)
          (continue_congr (call (pick first rest times) s) _ _ ends)
      where
        ends :
            (r : Result RobustMqError Bytes) (s' : Pools)
            → (elim r as (λ _. Action Pools (Option (Result RobustMqError Bytes))) [
              | ok bytes ↦ pure (some (ok bytes))
              | err e ↦
                  if ltb retry_times times
                  then pure (some (err e))
                  else retry rounds service interface (first ∷ rest) request (times + 1)
            ])
                s'
              ≡ (elim r as (λ _. Action Pools (Option (Result RobustMqError Bytes))) [
                | ok bytes ↦ pure (some (ok bytes))
                | err e ↦ first_success call (pick first rest (times + 1)) later
              ])
                  s'
        ends (ok bytes) s' = refl
        ends (err e) s' = rw early (h s')

    -- For a list of addresses that is not empty, `retry_call` ends within its four rounds and makes
    -- at most four attempts, at the second address of the list, the third, and so on round the
    -- list: it returns the first success, and after a failure at the fourth that failure.
    pub retry_call-first_success :
        (s : Pools)
        → retry_call service interface (first ∷ rest) request s
          ≡ first_success call (pick first rest 1) (map (pick first rest) (2 ∷ 3 ∷ 4 ∷ [])) s
    unfolding retry_call
    retry_call-first_success s =
        retry-more 3 1 _ s refl λ s1.
          retry-more 2 2 _ s1 refl λ s2. retry-more 1 3 [] s2 refl λ s3. retry-last 0 4 s3 refl
