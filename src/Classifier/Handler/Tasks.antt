-- ===== src/Classifier/Handler/Tasks.antt =====
-- Which tasks a judged mail queues.
use coupi.Prelude.{
  ℕ, ◌≡◌, ◌≢◌, refl, sym, ap, ◌∙◌, ◌⊎◌, inl, inr, Bool, true, false, Option, none, some, List, Text,
}
use coupi.Domain.{
  ExtractorType, FilterResult, passed, filtered_out, extraction_failed, CouponClassifyMessage,
}
use coupi.Effects.{Exec, ok, pure}
use coupi.Effects.Calls.{bind-ok, pure-ok, bind-on_left, bind-on_right}
use coupi.Gmail.{MailBody}
use coupi.Accounts.{MailAccountWithToken}
use coupi.Classifier.Validity.{ExtractedCoupon}
use coupi.Classifier.Reminder.{expiry_reminder_time}
use coupi.Classifier.Extractors.{CouponExtractor}
use coupi.Classifier.Pipeline.{ExtractOutcome, extract_and_judge}
use coupi.Classifier.Handler.{
  ClassifyWorld, ClassifyOutcome, notified, ProcessedMail, QueuedTask, mail_input, verdict_of,
  coupon_row, push_task, reminder_task, worth_notifying, enqueue_reminder, schedule_reminder,
  notify, notify_or_not, judge_mail, handle_new, handle_mail, handle,
}

module _ {Q : Type 0} (enqueue : QueuedTask → Exec Q (Unit {0})) where
  -- The queue after the reminder, if there is a time for one.
  abbrev pub HasReminder : Text → Option ℕ → Option Bool → Q → Q → Type 0
  HasReminder id none scheduled q q' = (scheduled ≡ some false) × (q' ≡ q)
  HasReminder id (some at) scheduled q q' =
      (scheduled ≡ some true) × (enqueue (reminder_task id at) q ≡ (ok tt, q'))

  enqueue_reminder-HasReminder :
      (id : Text) (time : Option ℕ) (scheduled : Bool) (q q' : Q)
      → enqueue_reminder enqueue id time q ≡ (ok scheduled, q')
      → HasReminder id time (some scheduled) q q'
  unfolding enqueue_reminder
  enqueue_reminder-HasReminder id none scheduled q q' e =
      let (same, end) = pure-ok _ _ _ _ e in (ap some (sym same), sym end)
  enqueue_reminder-HasReminder id (some at) scheduled q q' e =
      let (x, q1, sent, e1) = bind-ok _ _ _ _ _ e in
      let (same, end) = pure-ok _ _ _ _ e1 in (ap some (sym same), sent ∙ ap (λ v. (ok tt, v)) end)

verdict_of-ne : (r : FilterResult) → verdict_of r ≢ notified
verdict_of-ne passed = cc
verdict_of-ne filtered_out = cc
verdict_of-ne extraction_failed = cc

worth_notifying-eq-some :
    (b : Bool) (e : Option ExtractedCoupon) (t : Option ExtractorType)
    (found : ExtractedCoupon × ExtractorType)
    → worth_notifying b e t ≡ some found
    → (b ≡ true) × (e ≡ some found.0) × (t ≡ some found.1)
unfolding worth_notifying
worth_notifying-eq-some true (some c) (some t) found e =
    let same : (c, t) ≡ found = cc in
    (
      refl,
      ap (λ (f : ExtractedCoupon × ExtractorType). some f.0) same,
      ap (λ (f : ExtractedCoupon × ExtractorType). some f.1) same,
    )
worth_notifying-eq-some true (some c) none found e = cc
worth_notifying-eq-some true none t found e = cc
worth_notifying-eq-some false c t found e = cc

module _ {W Q : Type 0} (world : ClassifyWorld W) (enqueue : QueuedTask → Exec Q (Unit {0}))
    (sender_extractors : List CouponExtractor) (generic : CouponExtractor) where
  -- A coupon that has been stored and queued, for the judgement that the pipeline made of a mail.
  pub record IsNotified (now : ℕ) (o : ClassifyOutcome) (q q' : Q) : Type 0 where
    pub mail : ProcessedMail
    pub body : MailBody
    pub coupon : ExtractedCoupon
    pub extractor_type : ExtractorType
    pub id : Text
    pub w0 : W
    pub w1 : W
    pub q1 : Q
    pub is_notified : o.verdict ≡ notified
    pub should_notify :
        (extract_and_judge sender_extractors generic (mail_input mail body) now).should_notify
        ≡ true
    pub extracted :
        (extract_and_judge sender_extractors generic (mail_input mail body) now).extracted
        ≡ some coupon
    pub created : world.create_coupon (coupon_row mail coupon extractor_type) w0 ≡ (ok id, w1)
    pub same_id : o.coupon_id ≡ some id
    pub pushed : enqueue (push_task id) q ≡ (ok tt, q1)
    pub reminded :
        HasReminder enqueue id
          (expiry_reminder_time coupon.expiry_date now)
          o.reminder_scheduled
          q1
          q'

  abbrev pub IsPlanned : ℕ → ClassifyOutcome → Q → Q → Type 0
  IsPlanned now o q q' = IsNotified now o q q' ⊎ ((o.verdict ≢ notified) × (q' ≡ q))

  pure-IsPlanned :
      (given o : ClassifyOutcome) (now : ℕ) (w w' : W) (q q' : Q)
      → given.verdict ≢ notified
      → pure {S = W × Q} given (w, q) ≡ (ok o, (w', q'))
      → IsPlanned now o q q'
  pure-IsPlanned given o now w w' q q' h e =
      let (same, end) = pure-ok _ _ _ _ e in
      inr (rw (sym same) h, ap (λ (v : W × Q). v.1) (sym end))

  notify_or_not-IsPlanned :
      (mail : ProcessedMail) (body : MailBody) (now : ℕ) (outcome : ExtractOutcome)
      (found : Option (ExtractedCoupon × ExtractorType)) (o : ClassifyOutcome) (w w' : W) (q q' : Q)
      → extract_and_judge sender_extractors generic (mail_input mail body) now ≡ outcome
      → worth_notifying outcome.should_notify outcome.extracted outcome.extractor_type ≡ found
      → notify_or_not world enqueue sender_extractors generic mail outcome found now (w, q)
        ≡ (ok o, (w', q'))
      → IsPlanned now o q q'
  unfolding notify_or_not notify schedule_reminder
  notify_or_not-IsPlanned mail body now outcome none o w w' q q' is worth e =
      pure-IsPlanned _ o now w w' q q' (verdict_of-ne outcome.filter_result) e
  notify_or_not-IsPlanned mail body now outcome (some (c, t)) o w w' q q' is worth e =
      let (id, w1, created, e1) = bind-on_left _ _ _ _ _ _ e in
      let (x, q1, pushed, e2) = bind-on_right _ _ _ _ _ _ e1 in
      let (scheduled, q2, reminded, e3) = bind-on_right _ _ _ _ _ _ e2 in
      let (same, end) = pure-ok _ _ _ _ e3 in
      let (should, extracted, _) = worth_notifying-eq-some _ _ _ _ worth in
      inl (record {
        mail = mail;
        body = body;
        coupon = c;
        extractor_type = t;
        id = id;
        w0 = w;
        w1 = w1;
        q1 = q1;
        is_notified = ap (λ (r : ClassifyOutcome). r.verdict) (sym same);
        should_notify = ap (λ (r : ExtractOutcome). r.should_notify) is ∙ should;
        extracted = ap (λ (r : ExtractOutcome). r.extracted) is ∙ extracted;
        created = created;
        same_id = ap (λ (r : ClassifyOutcome). r.coupon_id) (sym same);
        pushed = pushed;
        reminded = rw (sym same) (
            rw (sym (ap (λ (v : W × Q). v.1) end))
              (enqueue_reminder-HasReminder enqueue id _ scheduled q1 q2 reminded));
      })

  judge_mail-IsPlanned :
      (mail : ProcessedMail) (now : ℕ) (account : Option MailAccountWithToken) (o : ClassifyOutcome)
      (w w' : W) (q q' : Q)
      → judge_mail world enqueue sender_extractors generic mail now account (w, q)
        ≡ (ok o, (w', q'))
      → IsPlanned now o q q'
  unfolding judge_mail
  judge_mail-IsPlanned mail now none o w w' q q' e = pure-IsPlanned _ o now w w' q q' (λ h. cc) e
  judge_mail-IsPlanned mail now (some account) o w w' q q' e =
      let (body, w1, fetched, e1) = bind-on_left _ _ _ _ _ _ e in
      let (x, w2, written, e2) = bind-on_left _ _ _ _ _ _ e1 in
      notify_or_not-IsPlanned mail body now _ _ o w2 w' q q' refl refl e2

  handle_new-IsPlanned :
      (mail : ProcessedMail) (now : ℕ) (existing : Option Text) (o : ClassifyOutcome) (w w' : W)
      (q q' : Q)
      → handle_new world enqueue sender_extractors generic mail now existing (w, q)
        ≡ (ok o, (w', q'))
      → IsPlanned now o q q'
  unfolding handle_new
  handle_new-IsPlanned mail now (some existing) o w w' q q' e =
      pure-IsPlanned _ o now w w' q q' (λ h. cc) e
  handle_new-IsPlanned mail now none o w w' q q' e =
      let (account, w1, loaded, e1) = bind-on_left _ _ _ _ _ _ e in
      judge_mail-IsPlanned mail now account o w1 w' q q' e1

  handle_mail-IsPlanned :
      (mail : Option ProcessedMail) (now : ℕ) (o : ClassifyOutcome) (w w' : W) (q q' : Q)
      → handle_mail world enqueue sender_extractors generic now mail (w, q) ≡ (ok o, (w', q'))
      → IsPlanned now o q q'
  unfolding handle_mail
  handle_mail-IsPlanned none now o w w' q q' e = pure-IsPlanned _ o now w w' q q' (λ h. cc) e
  handle_mail-IsPlanned (some mail) now o w w' q q' e =
      let (existing, w1, read, e1) = bind-on_left _ _ _ _ _ _ e in
      handle_new-IsPlanned mail now existing o w1 w' q q' e1

  -- A classification that returns has either queued, in this order, the push of the coupon that it has
  -- created and, exactly if the expiry date gives a time for it, its reminder at that time, for a
  -- coupon that the pipeline would notify; or it has another verdict and has queued nothing.
  pub handle-IsPlanned :
      (message : CouponClassifyMessage) (now : ℕ) (o : ClassifyOutcome) (w w' : W) (q q' : Q)
      → handle world enqueue sender_extractors generic message now (w, q) ≡ (ok o, (w', q'))
      → IsPlanned now o q q'
  unfolding handle
  handle-IsPlanned message now o w w' q q' e =
      let (mail, w1, read, e1) = bind-on_left _ _ _ _ _ _ e in
      handle_mail-IsPlanned mail now o w1 w' q q' e1
