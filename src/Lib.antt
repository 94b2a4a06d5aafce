-- ===== src/Lib.antt =====
-- Verification of the Python code of Virtual RSP, a test bed for remote SIM provisioning.
--
-- The program has a profile store shared by two desktop applications, a service that drives
-- the eUICC through lpac, and an SM-DP+ server that protects profile packages for the eUICC.
-- The library follows these parts:
--
-- Logging models vrsp_logging.py. A `Log` holds the level and the lines of the error stream; the
-- time and the number of the process are arguments. `Logging.Dump` and `Logging.Blind` are about the
-- dump of bytes, whose loop runs on the rounds of its range.
--
-- ProfileStore models gui/services/profile_store.py. A `Disk` holds the database file and the
-- temporary file beside it. `Defs` has the data (`Profile`, its dictionary `Entry`, the
-- database `Db` with every key that may be missing) and `_write_atomic` with the faults that
-- stop it before, within or after the dump; `Methods` has one function for each method of
-- `ProfileStore`, and for the loops each of them runs. A method returns its result beside the
-- disk, because what is written before an exception stays written. `Runs` has sequences of
-- calls and what they preserve, `Switching`, `Removing` and `RoundTrip` the single methods.
-- `Abstract` has the store as a client sees it, a list of profiles without files and missing keys,
-- and `Refinement` relates the methods to it.
--
-- LpaCommand models `LpaCommandService` of mno/services/lpa_command.py over the store: a
-- `World` is the disk, the commands sent to lpac and what lpac answers. `LpaCommand.Iccid` has
-- the generated ICCID.
--
-- ProcessManager models `ProcessManager` of gui/services/process_manager.py. A `Manager` holds the
-- two dictionaries, the clock in tenths of a second and what was asked of the operating system;
-- `Os` is what it answers, given all that. `Starting` has the methods that start a process, which
-- differ in a `Launch`, `Stopping` the others. The loop that waits for a process runs on the 50
-- rounds of the code itself. `Changes` is the specification of a step and `Refinement` the runs.
--
-- LpaService models `LPAService` of gui/services/lpa_service.py: how lpac ends is an argument of
-- each method, and `Replies` is about what they report.
--
-- Bsp models pysim/pySim/esim/bsp.py: `Padding`, `Keys`, the algorithms and one segment in `Algo`,
-- the loop over segments and both directions in `Stream`. The state is the block counter and
-- the MAC chaining value. AES, CMAC and the BER-TLV functions of pyosmocom are the parameter
-- `Crypto`, and `IsCrypto` says what is relied on. The loop over segments runs on fuel; the
-- length of the plaintext is enough, because each round removes a byte at least.
--
-- BoundProfile models pysim/pySim/esim/es8p.py over the state of Bsp. `Tools` is the record of the
-- functions of other packages, with `IsTools` for what is relied on, and the data of the packages;
-- `Channel` has the secure channel request and what `encode` computes first, `Encode` the
-- protection of a profile and `BoundProfilePackage.encode`, `Decode` what the eUICC does. The loop
-- of `split_bertlv_sequence` runs on as much fuel as bytes are left, since a TLV has one at least.
-- `Splitting`, `Sending`, `Contents` and `Agreement` are the steps of the round trip. What
-- `decode` leaves in the object is its result.
--
-- Certs models pysim/pySim/esim/x509_cert.py: `Cert` has the fields of a certificate that the
-- code reads, `CertificateSet` the root and the intermediate certificates. The loop of
-- `verify_cert_chain` runs on the rounds that `max_depth` leaves, so its fuel is the bound of
-- the code itself. `Chain` has the chains of signatures that it accepts, `Issued` the sets with
-- one intermediate certificate, which the server builds. `Crl` has the loading of revocation lists, `Keys` the
-- class `CertAndPrivkey` with the signatures it writes. ECDSA, files and HTTP are parameters.
--
-- Esim models pysim/pySim/esim/__init__.py: `Pmo` the operations that notifications name, with
-- their bit strings, `ActivationCode` the activation codes, `Reading` what is read of what was
-- written.
--
-- Smdp models the SM-DP+ server of pysim/osmo-smdpp.py. `Session` has `RspSessionState` and its
-- pickling, `Store` the shelf of sessions (pysim/pySim/esim/rsp.py), `Session` also
-- `ProfileMetadata` (pysim/pySim/esim/es8p.py), `History` the download history, `History.File` its
-- file. The handlers use the session store as a `Common.Dict`, to which `Store.Refinement` relates
-- it. `Startup` has the constructor of the server with the loading of its certificates, keys,
-- sessions and history. `Eid` is the check of an EID. `Server` has the state (sessions, history, files), the configuration, and `Ext`,
-- the record of what other packages do, with `BoundProfile.Tools` in it. `Initiate`,
-- `Authenticate`, `Download` and `Closing` have the handlers of ES9+. Each returns its result
-- beside the state, and what it draws at random is an argument. `Trust`, `Delivery` and `Ending`
-- state what a request that succeeds has shown, `Sent` what a package was made from,
-- `Receiving` what the eUICC reads in the reply,
-- `Safety`, `Keeps` and `Runs` what every sequence of requests keeps. `Mno` has the endpoints for
-- the MNO console, `Profiles` how they and `authenticateClient` agree on the profiles. `Oid` has
-- the decoder of object identifiers, whose loop runs on as much fuel as bytes are left, since a
-- round takes a byte at least. `Api` has the wrapper of the handlers. The text of JSON bodies and
-- the setting of response headers are not modelled. A text of an EID is a list of ASCII code
-- points.
--
-- SmdpApi models `SmdpApiService` of mno/services/smdp_api.py. The package requests is the parameter
-- `Http`. `Network` routes its requests to the endpoints of `Smdp.Mno`; it may lose a request or an
-- answer. What it does is assumed only of requests that are sent as they are, without quoting.
-- `Uploading` and `Deleting` state what the server has after a call.
--
-- Common has what the parts share: Boolean tests, lists measured by native numbers, Python's
-- exceptions as values, and methods that keep their state beside a result.
--
-- Not modelled: the Qt widgets of gui/ and mno/ (presentation), the C programs lpac/ and v-euicc/,
-- the copy of the upstream pySim under pysim/ apart from the files named here, file locks, a second
-- fault in one call of the profile store (the removal of the temporary file after a first one is
-- taken to succeed), where the code logs a message, the text of JSON files, and the order in which two processes write.
pub mod Common
pub mod Esim
pub mod Logging
pub mod ProfileStore
pub mod LpaCommand
pub mod ProcessManager
pub mod LpaService
pub mod Bsp
pub mod BoundProfile
pub mod Certs
pub mod Smdp
pub mod SmdpApi
