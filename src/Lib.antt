-- ===== src/Lib.antt =====
-- Coupi reads the mail of its users, finds the coupons in it, and pushes them to the users' phones.
-- This library models the backend's own logic, backend/src, and proves what makes it correct.
--
-- A user signs in by connecting a Gmail account, whose tokens are stored encrypted. A mail then goes
-- through these parts. A notification of Gmail, or the safety poll, starts the ingest of an account: it
-- loads the account with a valid token, fetches what is new behind the account's cursor, hands each
-- mail to the rule filter, which looks for a listed sender domain and for keywords, and records and
-- publishes what passes. The classification handler takes a recorded mail, fetches its body, and has the
-- extractors read the discount, the conditions, the expiry date and the signs of spam from its text.
-- The validity checker judges what they found, by the day in Korea. A usable coupon is stored, a push
-- task is enqueued at once and a reminder for the eve of the expiry day, and the notification service
-- sends either task's push to the devices of the user.
--
-- Classifier, for backend/src/coupon-classifier:
--   Sender             sender.util.ts: extractSenderDomain, matchesDomain.
--   RuleFilter         rule-filter.service.ts: the cached tables (getRules, invalidateCache) and apply,
--                      as load_rules, get_rules, invalidate_cache and apply_rules.
--   DateParser         extractors/date-parser.ts: parseExpiryDate, with inferYear and
--                      isPlausibleExpiry. The instant of the receipt enters by its local day, and the
--                      time zone of the process is the parameter local_day.
--   Extractors         extractors/patterns.ts, generic-regex.extractor.ts, extractor-registry.service.ts.
--                      The source registers no extractor of a sender yet, so these are a parameter.
--   Validity           validity-checker.service.ts: check, toKstDateString.
--   Reminder           expiry-reminder.util.ts: expiryReminderTime.
--   Pipeline           coupon-classifier.service.ts: extractAndJudge and classify over all of these.
--   Handler            coupon-classify.service.ts: handle and scheduleReminder.
-- MailIngest           backend/src/mail-ingest/mail-ingest.service.ts: handle, fetch, resync, record,
--                      insertProcessedMail.
-- Gmail, for backend/src/auth:
--   Messages           gmail-message.util.ts: getHeader, extractBody, htmlToText, toPlainText,
--                      toRawMailMessage.
--   Provider           gmail.provider.ts, over the calls of the Google library.
-- Accounts             backend/src/auth/mail-account-token.service.ts and mail-cursor.ts: loadActive,
--                      refreshAndStore, saveCursor, saveWatch, markReauthRequired, parseCursor.
--   Disconnect         mail-account.service.ts: list, disconnect.
-- Jobs, for backend/src/jobs:
--   Renewal            gmail-watch-renewal.job.ts: run, renew.
--   Poll               gmail-safety-poll.job.ts: run.
-- Encryption           backend/src/common/encryption: the interfaces and their laws.
--   Service            encryption.service.ts: encrypt, decrypt and the two caches of keys.
--   Local              local-key-provider.ts: wrapDek, unwrapDek.
-- Sessions             backend/src/auth/session.service.ts and session.guard.ts. The token library signs
--                      and expires in whole seconds of the clock's milliseconds.
-- SignIn               backend/src/auth/auth.service.ts: getAuthUrl, connect, registerWatch.
-- InternalCalls        backend/src/common/messaging/internal-caller.guard.ts.
-- Notification, for backend/src/notification:
--   Message            notification-message.util.ts: senderDisplayName, daysUntilExpiry,
--                      buildNotification.
--   Fcm                fcm.client.ts: send, toFailure, errorCodeOf.
--   Dispatch           notification.service.ts: dispatch, one function for each block of it.
-- Coupons              backend/src/coupons: list, findOne and filterWhere of coupons.service.ts, the last
--                      as tests of a row, and toCouponDto of coupon.dto.ts.
-- Devices              backend/src/devices/devices.service.ts: register, unregister.
-- Endpoints            the controllers that Pub/Sub and Cloud Tasks call: mail-ingest and gmail-webhook of
--                      backend/src/mail-ingest, coupon-classify and push-dispatch.
-- Errors               backend/src/common/errors: codeForStatus of app-error.ts and the answers of
--                      http-exception.filter.ts.
-- Domain               backend/src/common/types: the closed sets of words and the messages of the queues.
--
-- Beneath these lie Prelude (texts as lists of UTF-16 code units, lists, integers), Calendar (the
-- Gregorian calendar of Date.UTC and the date getters, with the days numbered from year 0), Instants
-- (milliseconds from year 0), Numerals (String, Number, padStart, split and toISOString on dates),
-- Regex (the regular expressions of the source as backtracking matchers that return the list of their
-- successes in order) and Effects (an async method as a function of the state of what it calls, to a
-- value or an error beside the new state, so that what was done before a throw stays done).
--
-- The database client, the Google library, FCM's HTTP interface, Pub/Sub, Cloud Tasks, the cipher,
-- base64, the JSON web tokens, the clock and the reader of JSON are parameters. A theorem that
-- needs more of them than their types names it as a hypothesis; the tests give an instance.
--
-- Bounds. Numerals are written with 21 digits of fuel, which is where JavaScript leaves decimal
-- notation. The pages of Gmail are read on fuel, and running out of it is an error of its own; where
-- the pages come to an end, one unit for each page is enough. The patterns take at most as many units
-- as the text has. Theorems that compare written dates hold from the year 1000 to the year 9999, where
-- toISOString writes four digits of the year; their hypothesis is IsUsual. An instant before year 0 is
-- not modelled. toLowerCase acts on ASCII.
--
-- Not modelled: the HTTP controllers of the app, and the adapters of Pub/Sub, Cloud Tasks and the key
-- management service, which pass a call on; configuration, logging, scripts and the mobile
-- application. Two calls that overlap in one process are not interleaved, but for the reloads of the
-- rule filter's cache in RuleFilter/Freshness. A clock may run in any way, unless a law says otherwise.
pub mod Prelude
pub mod Domain
pub mod Instants
pub mod Calendar
pub mod Numerals
pub mod Regex
pub mod Effects
pub mod Classifier
pub mod Gmail
pub mod Accounts
pub mod MailIngest
pub mod Notification
pub mod Coupons
pub mod Errors
pub mod Jobs
pub mod Devices
pub mod Endpoints
pub mod Sessions
pub mod SignIn
pub mod InternalCalls
pub mod Encryption
