-- ===== src/Trade/Step.antt =====
-- The count of a transaction keeps step with its commands, so the results that the bot refers to are
-- those of the commands that it means.
use mathlib.Core.List.{append_assoc}
use poison_dart.Base.{
  ℕ, ◌%◌, ◌^◌, ◌<◌, ◌≡◌, sym, ap, ◌∙◌, inl, inr, List, [], ◌∷◌, ◌++◌, arith, length, length-append,
  ok, Result-cases, ok_err_elim, ok_injective,
}
use poison_dart.Trade.{
  Argument, Command, PureValue, Builder, TradeCtx, command, transfer_arg, pure, obj,
  last_command_idx, issue,
}

module _ {B O : Type 0} (builder : Builder B O) where
  -- The commands so far.
  abbrev pub issued : TradeCtx B → List Command
  issued ctx = builder.commands ctx.ptb

  abbrev pub IsInStep : TradeCtx B → Type 0
  IsInStep ctx = ctx.command_count ≡ length (issued ctx) % 2 ^ 16

  -- A step that adds these commands at the end.
  abbrev pub Adds : TradeCtx B → TradeCtx B → List Command → Type 0
  Adds ctx ctx' cs = (issued ctx' ≡ issued ctx ++ cs) × IsInStep ctx'

  pub command-Adds :
      (ctx : TradeCtx B) (c : Command) → IsInStep ctx → Adds ctx (command builder ctx c) (c ∷ [])
  unfolding command
  command-Adds ctx c h =
      let e = builder.commands-command ctx.ptb c in
      (e, (let l = ap length e ∙ length-append (issued ctx) (c ∷ []) in omega arith))

  pub transfer_arg-Adds :
      (ctx : TradeCtx B) (recipient : ℕ) (a : Argument)
      → IsInStep ctx
      → (r : Argument) × Adds ctx
          (transfer_arg builder ctx recipient a)
          (Command.transfer_objects (a ∷ []) r ∷ [])
  unfolding transfer_arg
  transfer_arg-Adds ctx recipient a h =
      let (r, e) = builder.commands-transfer_arg ctx.ptb recipient a in
      (
        r,
        (
          e,
          (let l =
                ap length e
                ∙ length-append (issued ctx) (Command.transfer_objects (a ∷ []) r ∷ []) in
              omega arith),
        ),
      )

  -- Inputs add no command.
  abbrev pub Keeps : TradeCtx B → TradeCtx B → Type 0
  Keeps ctx ctx' = (issued ctx' ≡ issued ctx) × (ctx'.command_count ≡ ctx.command_count)

  pub pure-Keeps :
      (ctx : TradeCtx B) (n : PureValue) (a : Argument) (ctx' : TradeCtx B)
      → pure builder ctx n ≡ ok (a, ctx')
      → Keeps ctx ctx'
  unfolding pure
  pure-Keeps ctx n a ctx' e = elim (Result-cases (builder.pure ctx.ptb n)) [
    | inl ((b, ptb), q) ↦
        let same = ok_injective (rw (q, pure) at e) in
        (
          ap (λ (r : Argument × TradeCtx B). issued r.1) (sym same)
              ∙ builder.commands-pure ctx.ptb ptb n b q,
          ap (λ (r : Argument × TradeCtx B). r.1.command_count) (sym same),
        )
    | inr (m, q) ↦ ok_err_elim {m = m} e (rw (q, pure))
  ]

  pub obj-Keeps :
      (ctx : TradeCtx B) (o : O) (a : Argument) (ctx' : TradeCtx B)
      → obj builder ctx o ≡ ok (a, ctx')
      → Keeps ctx ctx'
  unfolding obj
  obj-Keeps ctx o a ctx' e = elim (Result-cases (builder.obj ctx.ptb o)) [
    | inl ((b, ptb), q) ↦
        let same = ok_injective (rw (q, obj) at e) in
        (
          ap (λ (r : Argument × TradeCtx B). issued r.1) (sym same)
              ∙ builder.commands-obj ctx.ptb ptb o b q,
          ap (λ (r : Argument × TradeCtx B). r.1.command_count) (sym same),
        )
    | inr (m, q) ↦ ok_err_elim {m = m} e (rw (q, obj))
  ]

  pub Keeps-IsInStep : (ctx ctx' : TradeCtx B) → Keeps ctx ctx' → IsInStep ctx → IsInStep ctx'
  Keeps-IsInStep ctx ctx' (e, q) h = q ∙ h ∙ ap (λ cs. length cs % 2 ^ 16) (sym e)

  pub Keeps-trans : (a b c : TradeCtx B) → Keeps a b → Keeps b c → Keeps a c
  Keeps-trans a b c (e, q) (e', q') = (e' ∙ e, q' ∙ q)

  -- The result of the last command.
  pub last_command_idx-Adds :
      (ctx ctx' : TradeCtx B) (c : Command)
      → Adds ctx ctx' (c ∷ [])
      → length (issued ctx) < 2 ^ 16
      → last_command_idx builder ctx' ≡ length (issued ctx)
  unfolding last_command_idx
  last_command_idx-Adds ctx ctx' c (e, h) room =
      let l = ap length e ∙ length-append (issued ctx) (c ∷ []) in omega arith

  pub Adds-append :
      (a b c : TradeCtx B) (cs ds : List Command) → Adds a b cs → Adds b c ds → Adds a c (cs ++ ds)
  Adds-append a b c cs ds (e, h) (e', h') =
      (e' ∙ ap (λ xs. xs ++ ds) e ∙ append_assoc (issued a) cs ds, h')

  pub Keeps-Adds : (a b c : TradeCtx B) (cs : List Command) → Keeps a b → Adds b c cs → Adds a c cs
  Keeps-Adds a b c cs (e, q) (e', h') = (e' ∙ ap (λ xs. xs ++ cs) e, h')

  -- A command with its result: the argument names the place at which the command stands.
  pub issue-Adds :
      (ctx : TradeCtx B) (c : Command)
      → IsInStep ctx
      → length (issued ctx) < 2 ^ 16
      → let (a, ctx') = issue builder ctx c in
        Adds ctx ctx' (c ∷ []) × (a ≡ Argument.result (length (issued ctx)))
  unfolding issue
  issue-Adds ctx c h room =
      let adds = command-Adds ctx c h in
      (adds, ap Argument.result (last_command_idx-Adds ctx (command builder ctx c) c adds room))
