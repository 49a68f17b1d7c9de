-- ===== src/PullImage/Fair/Round.antt =====
-- A round: one turn for each of several resources, which share the limiter.
use text.Mathlib.TextEquality.{eq_iff}
use kwarm.Base.{
  ℕ, ◌+◌, ◌≤◌, ◌<◌, ◌≡◌, refl, sym, subst, ap, ap₂, ◌∙◌, inl, inr, true, false, String, List, [],
  ◌∷◌, map, arith,
}
use kwarm.Api.{PrePullImage}
use kwarm.Cluster.{same_key, Sys, Client, Library}
use kwarm.RateLimiter.Bounds.{IsValid}
use kwarm.RateLimiter.Slots.{Holds, Holds-same}
use kwarm.PullImage.Census.{held}
use kwarm.PullImage.Effort.{EndsJobs, MakesJobs}
use kwarm.PullImage.Stored.{ImageStore}
use kwarm.PullImage.Alone.{open-cases}
use kwarm.PullImage.Fleet.{slots_of, length-swap, count-swap}
use kwarm.PullImage.Fair.Stage.{Stage, unguarded, waiting, working, closed, turn}
use kwarm.PullImage.Fair.Turn.{pulling, held_idle, Ready, turn-Turned}
use kwarm.PullImage.Fair.Apart.{turn_others}

-- A namespace and a name.
abbrev pub Key : Type 0
Key = String × String

abbrev pub key : PrePullImage → Key
key p = (p.meta.namespace, p.meta.name)

abbrev pub keys_of : List PrePullImage → List Key
keys_of = map key

-- A key is none of some others, and no key is listed twice.
abbrev pub Apart : Key → List Key → Type 0
Apart k [] = Unit
Apart k (j ∷ js) = (same_key j.0 j.1 k.0 k.1 ≡ false) × Apart k js

abbrev pub KeysApart : List Key → Type 0
KeysApart [] = Unit
KeysApart (k ∷ ks) = Apart k ks × KeysApart ks

same_key_sym : (a b c d : String) → same_key a b c d ≡ false → same_key c d a b ≡ false
same_key_sym a b c d e = ground (arith, eq_iff a c, eq_iff b d, eq_iff c a, eq_iff d b, e)

-- Resources with the number of reconciles that each may still need.
abbrev pub Items : Type 0
Items = List (PrePullImage × ℕ)

abbrev pub resources : Items → List PrePullImage
resources = map (λ (i : PrePullImage × ℕ). i.0)

unfoldable pub needed : Items → ℕ
needed [] = 0
needed (i ∷ is) = i.1 + needed is

unfoldable pub pulling_all : List PrePullImage → ℕ
pulling_all [] = 0
pulling_all (p ∷ ps) = pulling p + pulling_all ps

-- When none pulls, no slot is held.
pub slots_idle :
    (ps : List PrePullImage) (others : List String)
    → pulling_all ps ≡ 0
    → slots_of ps others ≡ others
unfolding slots_of pulling_all
slots_idle [] others h = refl
slots_idle (p ∷ ps) others h =
    ap (held p.status.node_status) (slots_idle ps others (omega (arith, h)))
    ∙ held_idle p.status.node_status others (omega (arith, h))

module _ {W : Type 0} (client : Client W) (lib : Library) (store : ImageStore client) where
  open store use {image_at}

  unfoldable pub round : List Key → Sys W → Sys W
  round [] s = s
  round (k ∷ ks) s = round ks (turn client lib store k.0 k.1 s)

  abbrev pub AllReady : Items → W → Type 0
  AllReady [] w = Unit
  AllReady (i ∷ is) w = Ready client lib store i.0 i.1 w × AllReady is w

  Ready-moved :
      (p : PrePullImage) (n : ℕ) (w w' : W)
      → Ready client lib store p n w
      → image_at p.meta.namespace p.meta.name w' ≡ image_at p.meta.namespace p.meta.name w
      → Ready client lib store p n w'
  Ready-moved p n w w' r same = record {
    stage = r.stage;
    small = r.small;
    stored = same ∙ r.stored;
  }

  -- The others are at their stages after a turn.
  AllReady-turn :
      (p : PrePullImage) (n : ℕ) (is : Items) (s : Sys W)
      → Ready client lib store p n s.world
      → Apart (key p) (keys_of (resources is))
      → AllReady is s.world
      → AllReady is (turn client lib store p.meta.namespace p.meta.name s).world
  AllReady-turn p n [] s r a all = tt
  AllReady-turn p n (i ∷ is) s r a all = (
    Ready-moved i.0 i.1 s.world _ all.0 (
        turn_others client lib store p n s i.0.meta.namespace i.0.meta.name r r.stage
          (same_key_sym i.0.meta.namespace i.0.meta.name p.meta.namespace p.meta.name a.0)),
    AllReady-turn p n is s r a.1 all.1,
  )

  -- What a round leaves, as a turn does for one resource.
  pub record Rounded (is : Items) (others : List String) (s s' : Sys W) : Type 0 where
    pub nows : Items
    pub same_keys : keys_of (resources nows) ≡ keys_of (resources is)
    pub ready : AllReady nows s'.world
    pub valid : IsValid s'.limiter
    pub holds : Holds s'.limiter (slots_of (resources nows) others)
    pub less : needed nows + pulling_all (resources is) ≤ needed is
    pub works :
        others ≡ [] → pulling_all (resources is) ≡ 0 → 0 < needed is → needed nows + 1 ≤ needed is
    pub frame :
        (k : Key)
        → Apart k (keys_of (resources is))
        → image_at k.0 k.1 s'.world ≡ image_at k.0 k.1 s.world

  last_idle : (p : PrePullImage) (n : ℕ) → n ≡ 0 → Stage client lib p n → pulling p ≡ 0
  last_idle p n e (unguarded node nodes w d g) = absurd (omega (arith, e))
  last_idle p n e (waiting node nodes w g) = absurd (omega (arith, e))
  last_idle p n e (working f g below few) = absurd (omega (arith, e))
  last_idle p n e (closed c idle) = idle

  module _ (ends : EndsJobs client lib) (makes : MakesJobs client lib)
      (adds : (l : List String) (x : String)
        → lib.contains_finalizer (lib.add_finalizer l x) x ≡ true) where
    pub round-Rounded :
        (is : Items) (others : List String) (s : Sys W)
        → KeysApart (keys_of (resources is))
        → AllReady is s.world
        → IsValid s.limiter
        → Holds s.limiter (slots_of (resources is) others)
        → Rounded is others s (round (keys_of (resources is)) s)
    unfolding round slots_of needed pulling_all
    round-Rounded [] others s apart all v h = record {
      nows = [];
      same_keys = refl;
      ready = tt;
      valid = v;
      holds = h;
      less = omega arith;
      works = λ a b c. absurd (omega arith);
      frame = λ k a. refl;
    }
    round-Rounded (i ∷ is) others s apart all v h =
        let p = i.0 in
        let rs = resources is in
        let s1 = turn client lib store p.meta.namespace p.meta.name s in
        let one =
          turn-Turned client lib store ends makes p i.1 (slots_of rs others) s adds all.0
            all.0.stage v h in
        let q = one.now in
        let rest =
          round-Rounded is (held q.status.node_status others) s1 apart.1
            (AllReady-turn p i.1 is s all.0 apart.0 all.1) one.valid
            (Holds-same s1.limiter _ _ (length-swap q.status.node_status rs others)
              (count-swap q.status.node_status rs others) one.holds) in
        let s' = round (keys_of rs) s1 in
        let same : key q ≡ key p = ap₂ (λ a b. (a, b)) one.same_namespace one.same_name in
        record {
          nows = (q, one.left) ∷ rest.nows;
          same_keys = ap₂ (◌∷◌) same rest.same_keys;
          ready = (
            Ready-moved q one.left s1.world s'.world one.ready
                (rest.frame (key q) (subst (λ k. Apart k (keys_of rs)) (sym same) apart.0)),
            rest.ready,
          );
          valid = rest.valid;
          holds =
              Holds-same s'.limiter _ _
                (sym (length-swap q.status.node_status (resources rest.nows) others))
                (λ k. sym (count-swap q.status.node_status (resources rest.nows) others k))
                rest.holds;
          less = omega (arith, one.less, rest.less);
          works = λ none_else idle more. elim (open-cases i.1) [
            | inr here ↦
                let none_held = slots_idle rs others (omega (arith, idle)) ∙ none_else in
                omega (arith, one.works none_held (omega (arith, idle)) here, rest.less)
            | inl gone ↦
                let quiet = last_idle q one.left (omega (arith, one.less, gone)) one.ready.stage in
                omega (
                  arith,
                  one.less,
                  rest.works (held_idle q.status.node_status others quiet ∙ none_else)
                      (omega (arith, idle)) (omega (arith, more, gone)),
                )
          ];
          frame = λ k a.
              rest.frame k a.1 ∙ turn_others client lib store p i.1 s k.0 k.1 all.0 all.0.stage a.0;
        }
