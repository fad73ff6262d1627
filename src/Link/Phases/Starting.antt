-- ===== src/Link/Phases/Starting.antt =====
-- The phases that the calls of lib.rs that start a link, expire it or set up its codec lead to.
use softmodem_rs.Prelude.{
  ℕ, ◌+◌, ◌≤◌, ◌<◌, ◌≡◌, refl, subst, ◌∙◌, ◌⊎◌, inl, inr, Bool, true, false, not, ◌&&◌, if_cases,
  if◌then◌else◌, arith, ltb, leb,
}
use softmodem_rs.Lapm.State.{Role, originate, answer, Lapm, originator, answerer}
use softmodem_rs.Lapm.State
use softmodem_rs.Link.State.{
  offer, second, lowest_rate, is_idle, Setup, Phase, Link, enter_protocol, fall_back, start_by,
  start, expire_by, expire, has_status,
}
use softmodem_rs.Link.Codec.{set_up_codec_by, set_up_codec, refused, connect_codec, is_none}

-- How far the link is.
abbrev pub rank : Phase → ℕ
rank Phase.idle = 0
rank (Phase.originating _) = 1
rank (Phase.listening _) = 1
rank (Phase.protocol _) = 2
rank Phase.normal = 3
rank Phase.released = 4

-- Where it may go from there: on to LAPM, before LAPM also to plain characters if V.42 is not
-- required, and to the end unless it carries plain characters.
abbrev pub Leads : Bool → ℕ → ℕ → Type 0
Leads required a b =
    (a ≡ b) ⊎ ((a < b) × (b ≤ 2)) ⊎ ((a ≤ 1) × (b ≡ 3) × (required ≡ false)) ⊎ ((a ≤ 2) × (b ≡ 4))

pub record Goes (l l' : Link) : Type 0 where
  pub same : l'.setup.required ≡ l.setup.required
  pub leads : Leads l.setup.required (rank l.phase) (rank l'.phase)

pub goes :
    {l l' : Link}
    → l'.setup.required ≡ l.setup.required
    → Leads l.setup.required (rank l.phase) (rank l'.phase)
    → Goes l l'
goes e h = record { same = e; leads = h }

pub here : {l : Link} → Goes l l
here = goes refl (inl refl)

Leads-trans : (r : Bool) (a b c : ℕ) → Leads r a b → Leads r b c → Leads r a c
Leads-trans r a b c h k = ground arith

pub Goes-trans : {a b c : Link} → Goes a b → Goes b c → Goes a c
Goes-trans {a} {b} {c} g h = record {
  same = h.same ∙ g.same;
  leads =
      Leads-trans a.setup.required (rank a.phase) (rank b.phase) (rank c.phase) g.leads
        (subst (λ r. Leads r (rank b.phase) (rank c.phase)) g.same h.leads);
}

pub fall_back-Goes : (l : Link) → rank l.phase ≤ 1 → Goes l (fall_back l)
unfolding fall_back
fall_back-Goes l h =
    if_cases (Goes l) l.setup.required _ _ (λ e. goes refl (inr (inr (inr (omega arith, refl)))))
      (λ e. goes refl (inr (inr (inl (h, refl, e)))))

pub enter_protocol-Goes : (l : Link) (m : Lapm) → rank l.phase ≤ 1 → Goes l (enter_protocol l m)
unfolding enter_protocol
enter_protocol-Goes l m h = goes refl (inr (inl (omega arith, omega arith)))

expire_by-Goes : (l : Link) (p : Phase) (now : ℕ) → l.phase ≡ p → Goes l (expire_by l p now)
unfolding expire_by
expire_by-Goes l (Phase.originating deadline) now e =
    let h : rank l.phase ≤ 1 = rw e (omega arith) in
    if_cases (Goes l) (leb deadline now) _ _ (λ due. fall_back-Goes l h) (λ early. here)
expire_by-Goes l (Phase.listening deadline) now e =
    let h : rank l.phase ≤ 1 = rw e (omega arith) in
    if_cases (Goes l) (leb deadline now) _ _ (λ due. fall_back-Goes l h) (λ early. here)
expire_by-Goes l (Phase.protocol m) now e =
    let h : rank l.phase ≤ 2 = rw e (omega arith) in
    if_cases (Goes l) (has_status (State.status m) State.Status.released) _ _
      (λ ended. goes refl (inr (inr (inr (h, refl))))) (λ runs. here)
expire_by-Goes l Phase.idle now e = here
expire_by-Goes l Phase.normal now e = here
expire_by-Goes l Phase.released now e = here

pub expire-Goes : (l : Link) (now : ℕ) → Goes l (expire l now)
unfolding expire
expire-Goes l now = expire_by-Goes l l.phase now refl

start_by-Goes : (l : Link) (r : Role) (now : ℕ) → rank l.phase ≡ 0 → Goes l (start_by l r now)
unfolding start_by
start_by-Goes l originate now e =
    if_cases (Goes l) (not l.setup.lapm) _ _ (λ plain. fall_back-Goes l (omega arith))
      (λ lapm.
        if_cases (Goes l) l.setup.detection _ _
          (λ detect. goes refl (inr (inl (omega arith, omega arith))))
          (λ flags. enter_protocol-Goes l (originator l.t401 (offer l.setup)) (omega arith)))
start_by-Goes l answer now e =
    if_cases (Goes l) (not l.setup.lapm) _ _ (λ plain. fall_back-Goes l (omega arith))
      (λ lapm. goes refl (inr (inl (omega arith, omega arith))))

is_idle-rank : (p : Phase) → is_idle p ≡ true → rank p ≡ 0
is_idle-rank Phase.idle h = refl
is_idle-rank (Phase.originating _) h = absurd (ground arith)
is_idle-rank (Phase.listening _) h = absurd (ground arith)
is_idle-rank (Phase.protocol _) h = absurd (ground arith)
is_idle-rank Phase.normal h = absurd (ground arith)
is_idle-rank Phase.released h = absurd (ground arith)

pub start-Goes :
    (two_frames : ℕ → ℕ) (l : Link) (bit_rate now : ℕ) → Goes l (start two_frames l bit_rate now)
unfolding start
start-Goes two_frames l bit_rate now =
    let setup = if ltb bit_rate lowest_rate then record l.setup { lapm = false } else l.setup in
    let l' : Link = record l { setup = setup; t401 = second + two_frames bit_rate } in
    let same : l'.setup.required ≡ l.setup.required =
      if_cases (λ (s : Setup). s.required ≡ l.setup.required) (ltb bit_rate lowest_rate) _ _
        (λ low. refl) (λ high. refl) in
    if_cases (Goes l) (is_idle l.phase) _ _
      (λ h.
        Goes-trans (goes same (inl refl)) (start_by-Goes l' l.role now (is_idle-rank l.phase h)))
      (λ h. here)

connect_codec-Goes : (l : Link) (m : Lapm) → rank l.phase ≤ 2 → Goes l (connect_codec l m)
unfolding connect_codec
connect_codec-Goes l m h =
    if_cases (Goes l) (refused l.setup.compression m.compression) _ _
      (λ ended. goes refl (inr (inr (inr (h, refl))))) (λ agreed. goes refl (inl refl))

set_up_codec_by-Goes : (l : Link) (p : Phase) → l.phase ≡ p → Goes l (set_up_codec_by l p)
unfolding set_up_codec_by
set_up_codec_by-Goes l (Phase.protocol m) e =
    let h : rank l.phase ≤ 2 = rw e (omega arith) in
    if_cases (Goes l) (is_none l.codec && has_status (State.status m) State.Status.connected) _ _
      (λ connected. connect_codec-Goes l m h) (λ not_yet. here)
set_up_codec_by-Goes l Phase.idle e = here
set_up_codec_by-Goes l (Phase.originating deadline) e = here
set_up_codec_by-Goes l (Phase.listening deadline) e = here
set_up_codec_by-Goes l Phase.normal e = here
set_up_codec_by-Goes l Phase.released e = here

pub set_up_codec-Goes : (l : Link) → Goes l (set_up_codec l)
unfolding set_up_codec
set_up_codec-Goes l = set_up_codec_by-Goes l l.phase refl
