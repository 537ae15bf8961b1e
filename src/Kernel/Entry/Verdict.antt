-- ===== src/Kernel/Entry/Verdict.antt =====
-- crates/kernel/src/bin/x86_64.rs: the outcomes of `polytope_kernel_main`.
use polytope_os.Base.{
  ℕ, ◌+◌, ◌%◌, ◌^◌, ◌<◌, ◌≡◌, ◌≢◌, ◌↔◌, ◌⊎◌, inl, inr, List, All, arith, sym, refl, ap, ◌∙◌,
}
use polytope_os.Kernel.Diagnostics.{QemuExitCode, contract_rejected, success, panicked}
use polytope_os.Base.{Result, ok, err, panic}
use polytope_os.Base.Bytes.{IsByte}
use polytope_os.Contract.Error.{ValidationError}
use polytope_os.Contract.Types
use polytope_os.Contract.Types.{BootInfo, ValidatedBootInfo}
use polytope_os.Contract.Typed.{IsTyped}
use polytope_os.Contract.Layout.{layout}
use polytope_os.Contract.Validate.Spec.{IsValid}
use polytope_os.Contract.Wire.{parse}
use polytope_os.Contract.Wire.Parse.{parse_iff, parse-ne-panic, parse-layout, validate_iff}
use polytope_os.Kernel.Entry.{
  ready, panic_handler, reject_contract, run_scenario, classify, polytope_kernel_main,
}

-- A page-aligned address above 0 from which 4176 bytes fit.
pub record IsHandoffAddress (contract : ℕ) : Type 0 where
  pub nonzero : 0 < contract
  pub aligned : contract % 4096 ≡ 0
  pub fits : contract + 4176 < 2 ^ 64

-- The bytes are the layout of a valid contract for the scenario.
pub record Holds (bytes : List ℕ) (kind : ℕ) : Type 0 where
  pub info : BootInfo
  pub typed : IsTyped info
  pub valid : IsValid info
  pub laid_out : bytes ≡ layout info
  pub scenario : info.scenario.kind ≡ kind

pub main_in_range :
    (memory : ℕ → ℕ → List ℕ) (contract length : ℕ)
    → length ≡ 4176
    → IsHandoffAddress contract
    → polytope_kernel_main memory contract length ≡ classify (parse (memory contract length))
unfolding polytope_kernel_main
main_in_range memory contract length l a = ground arith

abbrev MainCases : (ℕ → ℕ → List ℕ) → ℕ → ℕ → Type 0
MainCases memory contract length =
    (length ≡ 4176)
      × IsHandoffAddress contract
      × (polytope_kernel_main memory contract length ≡ classify (parse (memory contract length)))
    ⊎ ((polytope_kernel_main memory contract length).code ≡ contract_rejected)

main_cases : (memory : ℕ → ℕ → List ℕ) (contract length : ℕ) → MainCases memory contract length
unfolding polytope_kernel_main
main_cases memory contract length = ground arith

reject_contract-code : (error : ValidationError) → (reject_contract error).code ≡ contract_rejected
unfolding reject_contract
reject_contract-code error = ground arith

-- What `classify` ran, when the exit code is not that of a rejection.
run_of_classify :
    (result : Result ValidationError ValidatedBootInfo)
    → result ≢ panic
    → (classify result).code ≢ contract_rejected
    → (v : ValidatedBootInfo) × (result ≡ ok v)
      × (classify result ≡ run_scenario v.info.scenario.kind)
unfolding classify
run_of_classify (ok v) n h = (v, refl, refl)
run_of_classify (err error) n h = absurd (h (reject_contract-code error))
run_of_classify panic n h = absurd (n refl)

success_ne_rejected : success ≢ contract_rejected
success_ne_rejected e = cc

panicked_ne_rejected : panicked ≢ contract_rejected
panicked_ne_rejected e = cc

run_scenario-code :
    (kind : ℕ) {code : QemuExitCode}
    → (run_scenario kind).code ≡ code
    → (kind ≡ 0) × (code ≡ success) ⊎ (kind ≡ 3) × (code ≡ panicked) ⊎ (code ≡ contract_rejected)
unfolding run_scenario
run_scenario-code kind h = ground arith

ready_kind : (kind : ℕ) → run_scenario kind ≡ ready → kind ≡ 0
ready_kind kind e = ground (arith, run_scenario-code kind (ap (λ o. o.code) e))

panic_kind : (kind : ℕ) → run_scenario kind ≡ panic_handler → kind ≡ 3
panic_kind kind e = ground (arith, run_scenario-code kind (ap (λ o. o.code) e))

module _ (memory : ℕ → ℕ → List ℕ) (contract length : ℕ) where
  -- A handoff for the scenario.
  abbrev pub IsHandoff : ℕ → Type 0
  IsHandoff kind = (length ≡ 4176) × IsHandoffAddress contract × Holds (memory contract length) kind

  pub main_of_handoff :
      (kind : ℕ) → IsHandoff kind → polytope_kernel_main memory contract length ≡ run_scenario kind
  unfolding classify
  main_of_handoff kind (l, address, h) =
      let bytes = memory contract length in
      let v : ValidatedBootInfo = record { info = h.info } in
      let e : parse bytes ≡ ok v =
        rw h.laid_out
          (parse-layout h.info h.typed ∙ (validate_iff h.info v h.typed).1 (refl, h.valid)) in
      main_in_range memory contract length l address ∙ ap classify e ∙ ap run_scenario h.scenario

  IsHandoff-of_main :
      All IsByte (memory contract length)
      → (polytope_kernel_main memory contract length).code ≢ contract_rejected
      → (kind : ℕ) × IsHandoff kind
        × (polytope_kernel_main memory contract length ≡ run_scenario kind)
  IsHandoff-of_main b n = elim (main_cases memory contract length) [
    | inr rejects ↦ absurd (n rejects)
    | inl (l, address, e) ↦
        let (v, parsed, run) =
          run_of_classify (parse (memory contract length))
            (parse-ne-panic (memory contract length) b) (λ c. n (ap (λ o. o.code) e ∙ c)) in
        let (t, valid, joined) = (parse_iff (memory contract length) v b).0 parsed in
        (
          v.info.scenario.kind,
          (
            l,
            address,
            record { info = v.info; typed = t; valid = valid; laid_out = joined; scenario = refl },
          ),
          e ∙ run,
        )
  ]

  -- For every address, length and memory of bytes, the kernel reports that it is ready and exits with
  -- success exactly when it was given 4176 bytes at a page-aligned address above 0, from which they
  -- fit into 64 bits, and the bytes are the layout of a valid contract for a normal boot.
  pub kernel_ready_iff :
      All IsByte (memory contract length)
      → (polytope_kernel_main memory contract length ≡ ready) ↔ IsHandoff Types.normal
  unfolding run_scenario
  kernel_ready_iff b = (
    λ e.
        let (kind, handoff, run) =
          IsHandoff-of_main b (λ c. success_ne_rejected (sym (ap (λ o. o.code) e) ∙ c)) in
        rw (ready_kind kind (sym run ∙ e)) at handoff,
    λ handoff. main_of_handoff 0 handoff,
  )

  -- For every address, length and memory of bytes, the kernel ends in the panic handler exactly when
  -- it was given 4176 bytes at a page-aligned address above 0, from which they fit into 64 bits, and
  -- the bytes are the layout of a valid contract that asks for the deliberate panic.
  pub kernel_panic_iff :
      All IsByte (memory contract length)
      → (polytope_kernel_main memory contract length ≡ panic_handler)
        ↔ IsHandoff Types.deliberate_panic
  unfolding run_scenario
  kernel_panic_iff b = (
    λ e.
        let (kind, handoff, run) =
          IsHandoff-of_main b (λ c. panicked_ne_rejected (sym (ap (λ o. o.code) e) ∙ c)) in
        rw (panic_kind kind (sym run ∙ e)) at handoff,
    λ handoff. main_of_handoff 3 handoff,
  )
