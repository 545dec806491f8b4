-- ===== src/AdoptionSsh/Execute/Outcome.antt =====
-- What any command line leaves of the adoption file and of the audit log.
use unifi_stubd.Prelude.{some-injective}
use unifi_stubd.Prelude.{
  ℕ, zero, suc, ◌≡◌, refl, sym, ap, inl, inr, arith, Bool, true, false, ◌||◌, ◌==◌, Option, none,
  some, List, [], ◌∷◌, get_or, Bool-cases, Option-cases, then_branch, else_branch,
}
use mathlib.Core.Path.{subst}
use unifi_stubd.Prelude.Text.{Bytes, codes, same, trim_space}
use unifi_stubd.AdoptionSsh.Parse.{split_commands, command_fields}
use unifi_stubd.AdoptionSsh.State.{Handler, World, Run}
use unifi_stubd.AdoptionSsh.Handler.Safe.{IsReadable, RunKeeps-handle_command}
use unifi_stubd.AdoptionSsh.Execute.{
  vocabulary, one_of, audit_command_name, base, is_shell, audited, execute_args, execute_fields,
  after_text, execute_parts, execute,
}

-- Every entry of the audit log is a fixed word.
abbrev pub IsAudited : List Bytes → Type 0
IsAudited [] = Unit
IsAudited (e ∷ log) = (one_of (codes "unsupported" ∷ vocabulary) e ≡ true) × IsAudited log

or_true : (b : Bool) → (b || true) ≡ true
or_true true = refl
or_true false = refl

audit_command_name_known :
    (name : Bytes) → one_of (codes "unsupported" ∷ vocabulary) (audit_command_name name) ≡ true
unfolding audit_command_name one_of same
audit_command_name_known name = elim (Bool-cases (one_of vocabulary name)) [
  | inl e ↦ rw e (rw e (or_true (same (codes "unsupported") name)))
  | inr e ↦ rw e
]

module _ (h : Handler) where
  abbrev pub IsSafe : World → Type 0
  IsSafe w = IsReadable h w.disk.target × IsAudited w.log

  -- A command line that ends leaves a safe world.
  abbrev Leaves : (Bytes → World → Option Run) → Type 0
  Leaves again = (c : Bytes) (w : World) (r : Run) → again c w ≡ some r → IsSafe w → IsSafe r.world

  IsSafe-audited : (args : List Bytes) (w : World) → IsSafe w → IsSafe (audited h args w).world
  unfolding audited
  IsSafe-audited args w (readable, log) =
      let name = base (get_or args 0 []) in
      let entered = record w { log = audit_command_name name ∷ w.log } in
      let (keeps, same_log) = (RunKeeps-handle_command h name args entered).kept in
      (keeps readable, subst IsAudited (sym same_log) (audit_command_name_known name, log))

  IsSafe-args :
      (again : Bytes → World → Option Run) (args : List Bytes) (w : World) (r : Run)
      → Leaves again
      → execute_args h again args w ≡ some r
      → IsSafe w
      → IsSafe r.world
  unfolding execute_args
  IsSafe-args again [] w r l e safe = subst (λ (x : Run). IsSafe x.world) (some-injective e) safe
  IsSafe-args again (a ∷ args) w r l e safe = elim (Bool-cases (is_shell (a ∷ args))) [
    | inl t ↦ l _ w r (then_branch (is_shell (a ∷ args)) _ _ t e) safe
    | inr f ↦
        subst (λ (x : Run). IsSafe x.world)
          (some-injective (else_branch (is_shell (a ∷ args)) _ _ f e))
          (IsSafe-audited (a ∷ args) w safe)
  ]

  IsSafe-fields :
      (again : Bytes → World → Option Run) (args : List Bytes) (w : World) (r : Run)
      → Leaves again
      → execute_fields h again args w ≡ some r
      → IsSafe w
      → IsSafe r.world
  unfolding execute_fields
  IsSafe-fields again [] w r l e safe = subst (λ (x : Run). IsSafe x.world) (some-injective e) safe
  IsSafe-fields again (a ∷ args) w r l e safe = elim (Bool-cases (same a (codes "sudo"))) [
    | inl t ↦ IsSafe-args again args w r l (then_branch (same a (codes "sudo")) _ _ t e) safe
    | inr f ↦ IsSafe-args again (a ∷ args) w r l (else_branch (same a (codes "sudo")) _ _ f e) safe
  ]

  after_text_world :
      (text : Bytes) (o : Option Run) (r : Run)
      → after_text text o ≡ some r
      → (s : Run) × (o ≡ some s) × (s.world ≡ r.world)
  after_text_world text none r e = cc
  after_text_world text (some s) r e = (s, refl, ap (λ (x : Run). x.world) (some-injective e))

  IsSafe-parts :
      (again : Bytes → World → Option Run) (ps : List Bytes) (w : World) (r : Run)
      → Leaves again
      → execute_parts h again ps w ≡ some r
      → IsSafe w
      → IsSafe r.world
  unfolding execute_parts
  IsSafe-parts again [] w r l e safe = subst (λ (x : Run). IsSafe x.world) (some-injective e) safe
  IsSafe-parts again (p ∷ ps) w r l e safe =
      elim (Option-cases (execute_fields h again (command_fields (trim_space p)) w)) [
        | inl n ↦ absurd (ground arith)
        | inr (first, ran) ↦
            let after = IsSafe-fields again _ w first l ran safe in
            elim (Bool-cases (first.code == 0)) [
              | inl t ↦
                  let chained : after_text first.text (execute_parts h again ps first.world)
                      ≡ some r =
                    ground arith in
                  let (last, rest, same_world) = after_text_world first.text _ r chained in
                  subst IsSafe same_world (IsSafe-parts again ps first.world last l rest after)
              | inr f ↦
                  let stopped : first ≡ r = ground arith in
                  subst (λ (x : Run). IsSafe x.world) stopped after
            ]
      ]

  -- A command line that is executed leaves the adoption file missing or readable if it was, and adds
  -- only fixed words to the audit log, whatever it holds and whichever call of the operating system
  -- fails.
  pub execute-IsSafe :
      (n : ℕ) (command : Bytes) (w : World) (r : Run)
      → execute h n command w ≡ some r
      → IsSafe w
      → IsSafe r.world
  unfolding execute
  execute-IsSafe zero command w r e safe = cc
  execute-IsSafe (suc n) command w r e safe =
      IsSafe-parts (execute h n) (split_commands command) w r (execute-IsSafe n) e safe
