-- ===== src/Lib.antt =====
-- pdr: the rules of a service for private tutors, and the theorems that make them correct.
--
-- The program is a set of C++ libraries. libs/pdr-core has the types that all of them share: errors,
-- money, identifiers, moments. libs/pdr-identity decides who may do what: the roles of a practice, the
-- guardians of a student and the consents that let them in, the ages at which a student decides for
-- himself, and the policies that turn all this into a decision; beside it stand the publication of a
-- practice, the accounts, the links that work once, the sessions and the throttle of attempts.
-- libs/pdr-jobs runs the periodic jobs under a lock. The other contexts ask
-- libs/pdr-identity by its contract, ContractService, for each action. libs/pdr-http takes a request
-- from its body to its answer: it asks who calls and whether he may, and keeps the answers to requests
-- that change something, so that a repetition of one is not done again. The use cases of
-- libs/pdr-identity sign people in and out, renew their passwords, invite them and let their guardians
-- in, over tables in PostgreSQL.
--
-- Files, with the code under libs/ that they model:
--   Core/Errors, Core/Money, Core/Ids, Core/Time: pdr-core/src/core/errors, money, types/ids and
--     types/time. Range has the bounds of 64 bits, Exact the arithmetic of amounts.
--   Core/Uuid, Core/Zones: identifiers as texts and the names of time zones, of the same two files.
--     Core/Secrets is core/secrets with application/verify_secrets.
--   Identity/Roles, Scopes, Abilities, Actions: pdr-identity/src/identity/core/membership,
--     guardian_scope, capabilities and action, with pdr-identity/contract/identity/contract.hpp.
--   Identity/Guardianship, Consents, Access: guardianship, guardian_consent and guardian_access of the
--     same folder; `grant`, `establish`, `revoked` and `weigh_consents` are Grant, Establish, Revoked and
--     WeighConsents.
--   Identity/Calendar and Ages: birth_date and age_status; `age_at` is AgeStatus::At and `turns_at`
--     AgeStatus::TurnsAt. Birthdays and Agree have what joins the two.
--   Identity/Policies: identity/application/policies. The file itself has the combinators, Rules the
--     nine policies, Table the PolicySet; Combinators, Rights and Safety have what is proved of them.
--   Identity/Subjects: subject_builder; `subject_for` is SubjectBuilder::For.
--   Identity/Journal: access_record, note_sensitive_access and contract_service; `decide_for` and
--     `may_act_for` are ContractService::Decide and MayActFor.
--   Identity/Practices, Throttle, Tokens, Sessions, Accounts, Processing: practice, login_throttle,
--     one_time_token, session, account with auth_lifetimes, and consent. Sessions/Texts is
--     SessionId::Parse and ToString. Practices/Store is core/tenant with onboarding/postgres_practices,
--     Practices/Reviews manage_publication; Processing/MyData is give_consent and show_my_data,
--     Processing/PersonalData core/personal_data; Journal/Rows is audit/postgres_access_log,
--     access/postgres_access_journal and show_access_journal.
--   Identity/Contacts: email and contact_list.
--   Identity/Entrance: Passwords is core/password and email; Settings, SessionStore, TokenStore,
--     AttemptStore and PeopleStore are the adapters of infrastructure/auth and onboarding/postgres_accounts;
--     Tables is what the use cases share. SignIn is sign_in, sign_out and authenticate_session, Resets
--     reset_password and change_password, Joining invite_participant, accept_invitation, attach_account
--     and confirm_email of the application folder, Inviting invite_many, Opening open_practice and
--     enrol_child, Signup register_on_my_own with onboarding/postgres_signup_attempts; the modules below
--     each have what is proved of it, Arrivals what those that let people in share.
--   Identity/Care: Scopes is grant_guardian_scope, revoke_guardian_scope and revoke_guardianship with
--     infrastructure/access/postgres_guardian_consents, Notices is announce_coming_of_age,
--     announce_guardian_handover and notify_guardian_of_act with core/independent_act.
--   Http/Keys, Problems, Store, Handler: pdr-http/src. Keys is core/idempotency; the others are
--     infrastructure/http: Problems error_mapping, problem, request_id and security_headers, Store
--     postgres_idempotency_keys with db/http/prune.sql, Handler authorized_handler and fingerprint;
--     `guarded` is AuthorizedHandler::Guarded, `serve` its Serve.
--   Jobs/Settings, Records, Runs: pdr-jobs/src/jobs; `execute` is RunPeriodicJob::Execute.
--   Base: what the modules share. Examples: the theorems at concrete inputs.
--
-- How the code is modelled:
--   An object with no setters is a record, an operation that returns a changed copy a function on it,
--   a refusal a value `err` with the kind, the code and the text of the source. The constructors that
--   only restore an object from the database are the record itself.
--   A moment is an integer of microseconds without bounds, since the source does not check its sums;
--   an amount of money is an integer with its 64 bits stated where they matter; a counter of 32 bits
--   wraps around. A set of roles, scopes or capabilities is the byte of bits that the source keeps.
--   The sixteen bytes of an identifier are one number. A digest is the text that an adapter computed.
--   std::chrono is not in the repository: Identity/Calendar has the days of the Gregorian calendar
--   that it documents, with years without bounds, where std::chrono::year has 16 bits; the two
--   agree up to the end of the year 32767. An item of a job whose Perform throws is not modelled.
--   The repositories, settings and clocks are ports that the database and the system fill: they are
--   parameters, and each reading of a clock is a parameter of its own. The ledger of the jobs is a
--   parameter with its documented law, that a claim succeeds once; Examples/Jobs has a list that keeps it.
--   A text is a native string, whose length is its number of bytes; the text of a password is the
--   list of its bytes. A table is the list of its rows; a statement is a function on it, with the
--   primary and unique keys of the table from db/migrations; a statement that violates such a key
--   or overflows a column fails. The mail of an account is looked up in the statement before it is
--   saved, so that its unique key is not looked at again. Of the other constraints there are the
--   ones on the name of a person and on the counters of registrations. The foreign keys, and the
--   CHECKs on the order of moments in a row (a session revoked or a link used before it was
--   created) and on texts that the domain composed are not modelled: what is stated of a statement
--   is about rows that satisfy them. Where ORDER BY leaves the order of equal moments open, the
--   model has one order.
--   A use case runs in one transaction: it is `returned` with its result and the tables, or
--   `failed` and nothing is kept but the accounts of the platform, whose statements are committed
--   at once. Requests are handled one after another, each to its end, but for the keys of
--   Http/Store: a claim of a key reads the rows of its snapshot and writes to those that stand, so
--   that another request can come between; the region of a practice is committed where the work
--   returns and undone where it throws. So the bounds on the registrations of an address and on the
--   guesses against an account are bounds for requests one after another; the counter of
--   registrations, which is read and saved by two statements, does not keep its limit for requests
--   at the same time.
--   The loops are recursions on the list that the source runs over. Two loops search a text from a
--   position, those of TimeZone::Parse and ContactList::Parse: they take fuel, of which there is one more
--   than the text has characters. Each round passes a separator, so that it is enough.
--   The ports of the consents to processing have no adapter in the repository: they are an interface,
--   with the law that a record that was saved is among those that are answered.
--
-- Not modelled: the framework and its connections, the rendering of documents and of JSON, the names of
-- jobs, the events of observability, and the contexts of scheduling, billing and notifications.
pub mod Base
pub mod Core
pub mod Examples
pub mod Http
pub mod Identity
pub mod Jobs
