-- ===== src/Channel/Race/Owner.antt =====
-- Of the clients that race for a channel of src/channel.rs, one at most gets it.
use native.Mathlib.Decide.{ℕ_discrete}
use mathlib.Core.Logic.{ite}
use mathlib.Core.Path.{subst}
use shmem_ipc.Base.{ℕ, ◌≤◌, ◌≡◌, ◌≢◌, ◌⊎◌, refl, sym, ◌∙◌, arith, inl, inr, Bool-cases}
use shmem_ipc.Header.{GlobalHeader, ChannelState, connected, as_u32, from_u32}
use shmem_ipc.Platform.{ProcessIdentity}
use shmem_ipc.Shared.State.{Mapping, wake_all}
use shmem_ipc.Shared.Protocol.{IsTerminal}
use shmem_ipc.Shared.Finish.{is_settled}
use shmem_ipc.Channel.Race.{
  Fresh, ClientPc, wake, joined, retire_step, System, put, turn_of, Reach, start, moves, retires,
}
use shmem_ipc.Channel.Race.Moves.{
  owns, Named, Knows, Inv, owns-cases, owner-Claimed, bystander, Moved, idles, claims, names_pid,
  names_birth, connects, loses, wakes, rests, client_step-Moved,
}

-- What holds of the new stage, and of the others, holds of the updated family.
put_elim :
    (P : ClientPc → Type 0) (pc : ℕ → ClientPc) (i : ℕ) (p' : ClientPc) (j : ℕ)
    → (i ≡ j → P p')
    → (i ≢ j → P (pc j))
    → P (put pc i p' j)
unfolding ℕ_discrete
put_elim P pc i p' j new old = go (ℕ_discrete i j)
  where
    go : (d : Dec (i ≡ j)) → P (ite d p' (pc j))
    go (yes e) = new e
    go (no ne) = old ne

-- What the mover knows after its move.
Moved-Knows :
    {identity : ProcessIdentity} {p p' : ClientPc} {m m' : Mapping}
    → Moved identity m p p' m'
    → Knows identity m.global p
    → Knows identity m'.global p'
unfolding wake_all
Moved-Knows {identity} {p'} {m} (idles e e') k = bystander identity m.global p' (omega (arith, e'))
Moved-Knows (claims h) k = (omega arith, omega arith)
Moved-Knows names_pid k = (k, refl)
Moved-Knows names_birth (c, pid) = (c, (pid, refl))
Moved-Knows (connects h) (c, named) = (omega arith, named)
Moved-Knows loses k = tt
Moved-Knows wakes k = k
Moved-Knows rests k = k

module _ {ids : ℕ → ProcessIdentity} {pc : ℕ → ClientPc} (i : ℕ) where
  -- A move that changes the header is made where no other client owns the channel.
  Moved-others :
      {p p' : ClientPc} {m m' : Mapping}
      → Moved (ids i) m p p' m'
      → pc i ≡ p
      → Inv ids m.global pc
      → (j : ℕ) → i ≢ j
      → Knows (ids j) m'.global (pc j)
  unfolding wake_all owns
  Moved-others (idles e e') at inv j ne = inv.knows j
  Moved-others {m} {m'} (claims h) at inv j ne =
      bystander (ids j) m'.global (pc j)
        (λ o. omega (arith, owner-Claimed (ids j) m.global (pc j) (inv.knows j) o, h))
  Moved-others {m'} names_pid at inv j ne =
      bystander (ids j) m'.global (pc j) (λ o. ne (inv.one i j (rw at refl) o))
  Moved-others {m'} names_birth at inv j ne =
      bystander (ids j) m'.global (pc j) (λ o. ne (inv.one i j (rw at refl) o))
  Moved-others {m'} (connects h) at inv j ne =
      bystander (ids j) m'.global (pc j) (λ o. ne (inv.one i j (rw at refl) o))
  Moved-others loses at inv j ne = inv.knows j
  Moved-others wakes at inv j ne = inv.knows j
  Moved-others rests at inv j ne = inv.knows j

  -- A mover that owns the channel is its only owner.
  Moved-only :
      {p p' : ClientPc} {m m' : Mapping}
      → Moved (ids i) m p p' m'
      → pc i ≡ p
      → Inv ids m.global pc
      → owns p' ≡ 1
      → (j : ℕ) → owns (pc j) ≡ 1
      → i ≡ j
  unfolding owns
  Moved-only (idles e e') at inv o j own = absurd (omega (arith, e', o))
  Moved-only {m} (claims h) at inv o j own =
      absurd (omega (arith, owner-Claimed (ids j) m.global (pc j) (inv.knows j) own, h))
  Moved-only names_pid at inv o j own = inv.one i j (rw at refl) own
  Moved-only names_birth at inv o j own = inv.one i j (rw at refl) own
  Moved-only (connects h) at inv o j own = inv.one i j (rw at refl) own
  Moved-only loses at inv o j own = absurd (omega (arith, o))
  Moved-only wakes at inv o j own = inv.one i j (rw at refl) own
  Moved-only rests at inv o j own = inv.one i j (rw at refl) own

  -- Whoever has connected the channel still owns it.
  Moved-connected :
      {p p' : ClientPc} {m m' : Mapping}
      → Moved (ids i) m p p' m'
      → pc i ≡ p
      → Inv ids m.global pc
      → Knows (ids i) m.global p
      → m'.global.state ≡ 3
      → (k : ℕ) × (owns (put pc i p' k) ≡ 1) × Named (ids k) m'.global
  unfolding owns wake_all
  Moved-connected (idles {p'} e e') at inv k three =
      let (j, own, named) = inv.connected_by three in
      let lost : owns (pc i) ≡ 0 = rw at e in
      (
        j,
        put_elim (λ q. owns q ≡ 1) pc i p' j
            (λ same. absurd (omega (arith, own, subst (λ k. owns (pc k) ≡ 0) same lost)))
            (λ ne. own),
        named,
      )
  Moved-connected (claims h) at inv k three = absurd (omega (arith, three))
  Moved-connected names_pid at inv k three = absurd (k.1 three)
  Moved-connected names_birth at inv k three = absurd (k.0.1 three)
  Moved-connected (connects h) at inv k three =
      (i, put_elim (λ q. owns q ≡ 1) pc i wake i (λ e. refl) (λ ne. absurd (ne refl)), k.1)
  Moved-connected loses at inv k three = absurd (k.0.1 three)
  Moved-connected wakes at inv k three =
      (i, put_elim (λ q. owns q ≡ 1) pc i joined i (λ e. refl) (λ ne. absurd (ne refl)), k.1)
  Moved-connected rests at inv k three =
      (i, put_elim (λ q. owns q ≡ 1) pc i joined i (λ e. refl) (λ ne. absurd (ne refl)), k.1)

  Moved-Inv :
      {p p' : ClientPc} {m m' : Mapping}
      → Moved (ids i) m p p' m'
      → pc i ≡ p
      → Inv ids m.global pc
      → Inv ids m'.global (put pc i p')
  Moved-Inv {p} {p'} {m} {m'} moved at inv =
      let known : Knows (ids i) m.global p =
        subst (λ q. Knows (ids i) m.global q) at (inv.knows i) in
      record {
        knows = λ j.
            put_elim (λ q. Knows (ids j) m'.global q) pc i p' j
              (λ e. subst (λ k. Knows (ids k) m'.global p') e (Moved-Knows moved known))
              (Moved-others moved at inv j);
        one = λ j k.
            put_elim (λ q. owns q ≡ 1 → owns (put pc i p' k) ≡ 1 → j ≡ k) pc i p' j
              (λ e own.
                put_elim (λ q. owns q ≡ 1 → j ≡ k) pc i p' k (λ e' own'. sym e ∙ e')
                  (λ ne own'. sym e ∙ Moved-only moved at inv own k own'))
              (λ ne own.
                put_elim (λ q. owns q ≡ 1 → j ≡ k) pc i p' k
                  (λ e own'. sym (Moved-only moved at inv own' j own) ∙ e)
                  (λ ne' own'. inv.one j k own own'));
        connected_by = Moved-connected moved at inv known;
      }

terminal-apart : (t : ChannelState) → IsTerminal t → as_u32 t ≢ 3
terminal-apart t terminal e = ground (arith, terminal, e)

retired-Knows :
    (identity : ProcessIdentity) (g : GlobalHeader) (pc : ClientPc) (t : ChannelState)
    → IsTerminal t
    → Knows identity g pc
    → Knows identity (record g { state = as_u32 t }) pc
retired-Knows identity g pc t terminal k = ground (arith, terminal, k)

retire-Inv :
    {ids : ℕ → ProcessIdentity} {pc : ℕ → ClientPc} (m : Mapping) (t : ChannelState)
    → IsTerminal t
    → Inv ids m.global pc
    → Inv ids (retire_step t m).global pc
unfolding retire_step wake_all
retire-Inv {ids} {pc} m t terminal inv = elim (Bool-cases (is_settled (from_u32 m.global.state))) [
  | inl done ↦ rw done inv
  | inr live ↦ rw live (record {
    knows = λ i. retired-Knows (ids i) m.global (pc i) t terminal (inv.knows i);
    one = inv.one;
    connected_by = λ three. absurd (terminal-apart t terminal three);
  })
]

Reach-Inv :
    {ids : ℕ → ProcessIdentity} {m : Mapping} {x : System}
    → Fresh m
    → Reach ids m x
    → Inv ids x.mapping.global x.pc
unfolding turn_of owns
Reach-Inv fresh start = record {
  knows = λ i. tt;
  one = λ i j o o'. absurd (omega (arith, o));
  connected_by = λ three. absurd (omega (arith, fresh.ready, three));
}
Reach-Inv {ids} fresh (moves {x} i checked r) =
    Moved-Inv i (client_step-Moved (ids i) checked (x.pc i) x.mapping) refl (Reach-Inv fresh r)
Reach-Inv fresh (retires {x} t terminal r) = retire-Inv x.mapping t terminal (Reach-Inv fresh r)

module _ {ids : ℕ → ProcessIdentity} {m : Mapping} {x : System} (fresh : Fresh m)
    (r : Reach ids m x) where
  others_out : (i : ℕ) → owns (x.pc i) ≡ 1 → (j : ℕ) → (j ≡ i) ⊎ (owns (x.pc j) ≡ 0)
  others_out i own j = elim (owns-cases (x.pc j)) [
    | inl out ↦ inr out
    | inr own' ↦ inl ((Reach-Inv fresh r).one j i own' own)
  ]

  -- In every interleaving of any number of clients, and of processes that retire the channel:
  -- while the state word is Connected, both words of the client's identity are those of one and
  -- the same client, which has won the first `compare_exchange`; every other client has not
  -- reached it, or has lost. So Connected is never seen with a zero or a mixed identity.
  pub connected_whole :
      x.mapping.global.state ≡ as_u32 connected
      → (i : ℕ) × (owns (x.pc i) ≡ 1)
        × Named (ids i) x.mapping.global
        × ((j : ℕ) → (j ≡ i) ⊎ (owns (x.pc j) ≡ 0))
  connected_whole three =
      let (i, own, named) = (Reach-Inv fresh r).connected_by three in
      (i, own, named, others_out i own)

  -- In every such interleaving, a client that has got the channel is the only one: its identity
  -- stays in the header, whether or not the channel has been retired since, the state word is not
  -- back before Connected, and no other client holds the claim or gets the channel too.
  pub joined_alone :
      (i : ℕ)
      → x.pc i ≡ joined
      → Named (ids i) x.mapping.global
        × (3 ≤ x.mapping.global.state)
        × ((j : ℕ) → (j ≡ i) ⊎ (owns (x.pc j) ≡ 0))
  unfolding owns
  joined_alone i at =
      let (after, named) : Knows (ids i) x.mapping.global joined =
        subst (λ q. Knows (ids i) x.mapping.global q) at ((Reach-Inv fresh r).knows i) in
      (named, after, others_out i (rw at refl))
