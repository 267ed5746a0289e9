-- ===== src/Bus/Lifecycle/Invariant.antt =====
-- What holds of the tables and channels of a bus, and that each step keeps it.
use eventbus.Base.{
  ℕ, ◌+◌, ◌≤◌, List, [], ◌∷◌, ◌≡◌, refl, sym, ◌∙◌, ap, Option, none, some, Text, arith, length,
}
use mathlib.Core.Path.{subst}
use eventbus.Event.{Event}
use eventbus.Channel.{Channel, Channels, make, close_safe, receive}
use eventbus.Channel.Bounds.{
  AllFit, make-AllFit, send_safe-AllFit, close_safe-AllFit, receive-AllFit, length-send_safe,
  length-close_safe, length-receive, length-make,
}
use eventbus.Delivery.{Context}
use eventbus.Bus.State.{Subscription, WildcardEntry, Core}
use eventbus.Bus.Lifecycle.{close_subs, close_exact, close_wild, close_tables}
use eventbus.Bus.Table.{
  add_channel, remove_channel, subscribe, next_channel, channel_size, new_subscription,
}
use eventbus.Bus.Table.Valid.{IsValid, add_channel-IsValid}
use eventbus.Bus.Table.Valid.Removal.{remove_channel-IsValid}
use eventbus.Bus.Table.Counts.{count_all, on_channel, count_all-add_channel}
use eventbus.Bus.Table.Counts.Removal.{count_all-remove_channel, channels-remove_channel}
use eventbus.Bus.Dispatch.{deliver, deliver_all, dispatch}
use eventbus.Bus.Dispatch.Targets.{dispatch-deliver_all}
use eventbus.Bus.Dispatch.Targets.Removal.{OnePerChannel}

-- No subscription holds a channel that has not been made.
abbrev pub KnownChannels : Core → Type 0
KnownChannels w = (ch : ℕ) → length w.channels ≤ ch → count_all (on_channel ch) w ≡ 0

pub record CoreInv (w : Core) : Type 0 where
  pub valid : IsValid w
  pub one : OnePerChannel w
  pub known : KnownChannels w
  pub fits : AllFit w.channels

pub channels-add_channel :
    (t : Text) (ch : ℕ) (w : Core) → (add_channel t ch w).channels ≡ w.channels
unfolding add_channel
channels-add_channel t ch w = ground arith

-- Subscribe gives the new subscription a channel of its own.
pub subscribe-CoreInv : (t : Text) (w : Core) → CoreInv w → CoreInv (subscribe t w).0
unfolding subscribe new_subscription
subscribe-CoreInv t w v =
    let w0 = record w { channels = make channel_size w.channels } in
    let same = channels-add_channel t (next_channel w) w0 in
    let more = length-make channel_size w.channels in
    let counts = λ (ch : ℕ). count_all-add_channel (on_channel ch) t (next_channel w) w0 in
    record {
      valid = add_channel-IsValid t (next_channel w) w0 (record {
        exact = v.valid.exact;
        keys = v.valid.keys;
        wild = v.valid.wild;
        patterns = v.valid.patterns;
      });
      one = λ ch. ground (arith, counts ch, v.one ch, v.known ch);
      known = λ ch h.
          let longer : length w.channels + 1 ≤ ch =
            omega (arith, ap (length {A = Channel}) same, more) in
          ground (arith, counts ch, v.known ch);
      fits = subst AllFit (sym same) (make-AllFit channel_size w.channels v.fits);
    }

-- The channels change, and the tables do not.
channels-CoreInv :
    (w : Core) (chs : Channels)
    → CoreInv w
    → length chs ≡ length w.channels
    → AllFit chs
    → CoreInv (record w { channels = chs })
channels-CoreInv w chs v e fits = record {
  valid = record {
    exact = v.valid.exact;
    keys = v.valid.keys;
    wild = v.valid.wild;
    patterns = v.valid.patterns;
  };
  one = v.one;
  known = λ ch h. v.known ch (omega arith);
  fits = fits;
}

pub close_safe-CoreInv :
    (ch : ℕ) (w : Core) → CoreInv w → CoreInv (record w { channels = close_safe ch w.channels })
close_safe-CoreInv ch w v =
    channels-CoreInv w _ v (length-close_safe ch w.channels)
      (close_safe-AllFit ch w.channels v.fits)

pub receive-CoreInv :
    (ch : ℕ) (w : Core) → CoreInv w → CoreInv (record w { channels = (receive ch w.channels).0 })
receive-CoreInv ch w v =
    channels-CoreInv w _ v (length-receive ch w.channels) (receive-AllFit ch w.channels v.fits)

pub remove_channel-CoreInv :
    (t : Text) (ch : ℕ) (w : Core) → CoreInv w → CoreInv (remove_channel t ch w)
remove_channel-CoreInv t ch w v =
    let same = channels-remove_channel t ch w in
    record {
      valid = remove_channel-IsValid t ch w v.valid;
      one = λ c. omega (arith, count_all-remove_channel (on_channel c) t ch w, v.one c);
      known = λ c h. omega (
        arith,
        count_all-remove_channel (on_channel c) t ch w,
        v.known c (omega (arith, ap (length {A = Channel}) same)),
      );
      fits = subst AllFit (sym same) v.fits;
    }

pub deliver-CoreInv :
    (o : Option ℕ) (s : Subscription) (e : Event) (w : Core) → CoreInv w → CoreInv (deliver o s e w)
unfolding deliver
deliver-CoreInv none s e w v =
    channels-CoreInv w _ v (length-send_safe s.ch e w.channels)
      (send_safe-AllFit s.ch e w.channels v.fits)
deliver-CoreInv (some k) s e w v =
    let sent =
      channels-CoreInv w _ v (length-send_safe s.ch e w.channels)
        (send_safe-AllFit s.ch e w.channels v.fits) in
    record {
      valid = record {
        exact = sent.valid.exact;
        keys = sent.valid.keys;
        wild = sent.valid.wild;
        patterns = sent.valid.patterns;
      };
      one = sent.one;
      known = sent.known;
      fits = sent.fits;
    }

deliver_all-CoreInv :
    (o : Option ℕ) (subs : List Subscription) (e : Event) (w : Core)
    → CoreInv w
    → CoreInv (deliver_all o subs e w)
unfolding deliver_all
deliver_all-CoreInv o [] e w v = v
deliver_all-CoreInv o (s ∷ subs) e w v =
    deliver_all-CoreInv o subs e (deliver o s e w) (deliver-CoreInv o s e w v)

pub dispatch-CoreInv :
    (ctx : Context) (e : Event) (w : Core) → CoreInv w → CoreInv (dispatch ctx e w).0
dispatch-CoreInv ctx e w v =
    rw (dispatch-deliver_all ctx e w) (deliver_all-CoreInv ctx.collector _ e w v)

-- The closing loops keep the number of channels and what they hold.
abbrev Kept : Channels → Channels → Type 0
Kept chs chs' = (length chs' ≡ length chs) × (AllFit chs → AllFit chs')

close_subs-Kept : (subs : List Subscription) (chs : Channels) → Kept chs (close_subs subs chs)
unfolding close_subs
close_subs-Kept [] chs = (refl, λ h. h)
close_subs-Kept (s ∷ subs) chs =
    let (e, k) = close_subs-Kept subs (close_safe s.ch chs) in
    (e ∙ length-close_safe s.ch chs, λ h. k (close_safe-AllFit s.ch chs h))

close_exact-Kept :
    (m : List (Text × List Subscription)) (chs : Channels) → Kept chs (close_exact m chs)
unfolding close_exact
close_exact-Kept [] chs = (refl, λ h. h)
close_exact-Kept ((t, subs) ∷ m) chs =
    let (e, k) = close_exact-Kept m (close_subs subs chs) in
    let (e', k') = close_subs-Kept subs chs in (e ∙ e', λ h. k (k' h))

close_wild-Kept : (es : List WildcardEntry) (chs : Channels) → Kept chs (close_wild es chs)
unfolding close_wild
close_wild-Kept [] chs = (refl, λ h. h)
close_wild-Kept (x ∷ es) chs =
    let (e, k) = close_wild-Kept es (close_subs x.subs chs) in
    let (e', k') = close_subs-Kept x.subs chs in (e ∙ e', λ h. k (k' h))

pub close_tables-CoreInv : (w : Core) → CoreInv w → CoreInv (close_tables w)
unfolding close_tables
close_tables-CoreInv w v = record {
  valid = record { exact = tt; keys = tt; wild = tt; patterns = tt };
  one = λ ch. omega arith;
  known = λ ch h. refl;
  fits =
      (close_wild-Kept w.wildcard_subs (close_exact w.subscribers w.channels)).1
        ((close_exact-Kept w.subscribers w.channels).1 v.fits);
}

pub length-close_tables : (w : Core) → length (close_tables w).channels ≡ length w.channels
unfolding close_tables
length-close_tables w =
    (close_wild-Kept w.wildcard_subs (close_exact w.subscribers w.channels)).0
    ∙ (close_exact-Kept w.subscribers w.channels).0
