-- ===== src/Lib.antt =====
-- wimsey: a reference implementation of the IETF WIMSE workload-identity specifications.
--
-- The program is a set of Rust crates. A workload is named by an identifier (crates/identifier).
-- An issuer signs a Workload Identity Token (crates/wit) over the identifier and a confirmation
-- key, which the token holds as a JSON Web Key (crates/jose). The workload then proves possession
-- of that key, either by a Workload Proof Token bound to the identity token (crates/wpt) or by an
-- HTTP message signature (crates/httpsig). A workload may also hold a certificate over its
-- identifier (crates/mtls). crates/issuer is an HTTP service that issues identity tokens, and
-- crates/cli is a command-line tool over all of these. Every verifier is a chain of checks with an
-- early return; here it is a chain of `Result`s in the order of the source.
--
-- Files, and the code that they model:
--   Common, Text              the Rust standard library as far as the program uses it. A text is
--                             the list of its characters; `len` and slices count the bytes of its
--                             UTF-8 form. `u64` arithmetic saturates where the source's does.
--   Identifier                crates/identifier/src/lib.rs: `parse` (with Identifier/Validate for
--                             the checks), the accessors and `origin`. Identifier/Grammar is the
--                             grammar of identifiers, stated apart from the code; the other
--                             children of Identifier hold proofs.
--   Jose/Algorithm, Jose/Key, Jose/Jwk
--                             crates/jose/src/error.rs, key.rs and jwk.rs. Jose/Primitives holds
--                             what the crate calls: the signature schemes and Base64.
--   HttpSig/Error, HttpSig/Message
--                             crates/httpsig/src/error.rs and message.rs: covered components and
--                             the values that requests, responses and exchanges give them.
--   HttpSig/Params, HttpSig/Field, HttpSig/Member, HttpSig/Profile, HttpSig/Signature
--                             crates/httpsig/src/signature.rs: the parameters and the signature
--                             base; the scanning of quoted strings; the parsing of members and
--                             their selection; the rules of the WIMSE profile; `sign`, `verify`.
--   HttpSig/Accepts, HttpSig/Signs, HttpSig/Base, HttpSig/Chosen, HttpSig/Chooses,
--   HttpSig/Ids, HttpSig/Strings
--                             what `verify` accepts (the rules, the times, the bounds of what is
--                             parsed, the whole), when `sign` succeeds, what the signature base
--                             determines, which components and which member are chosen, and the
--                             written forms of components and strings.
--   Jws/Compact, Jws/Json     what the two token crates share: three parts between dots, and JSON.
--   Wit, Wpt                  crates/wit/src and crates/wpt/src: error.rs, claims.rs, token.rs.
--                             Accepts states what a verified token promises, Issue is about
--                             `issue`.
--   Mtls                      crates/mtls/src: error.rs and wic.rs. Der holds the DER forms of ECDSA
--                             signatures, Pkcs8 the seed and the public key forms, Ca the
--                             authority and `issue`, Verify the verification; Certificate and Laws
--                             stand for the crates that write and read certificates. Checks,
--                             Accepts and Issue hold proofs, as do the children of Der and Pkcs8.
--   Issuer                    crates/issuer/src: lib.rs (the issuer and its handlers, with Hex for
--                             `random_id`) and main.rs (Settings). Grants, Issues and Answers are
--                             about `issue_wit`.
--   Cli                       crates/cli/src: key.rs (Key), httpsig.rs (Request, HttpSign) and
--                             main.rs (Commands, Tokens, Certificates, Output). The children of
--                             HttpSign, Request/Described, Pem, Wic, Key/Files, Output/Steps and
--                             Output/Outcome hold proofs.
--   Conformance               crates/conformance/src: vectors.rs (Code, the error codes) and run.rs
--                             (Report, and Identifiers for `run_identifier`; a detail is a value
--                             in place of its text). Green and Conforms hold proofs.
--   Tests                     concrete primitives, runs, and the theorems at concrete inputs.
--
-- Correspondence. A struct is a record and an enum a data type, with the source's names in this
-- language's spelling (`EdDsa` is `ed_dsa`). `?` is `>>=`, `if .. { return Err(e) }` is `ensure`.
-- A step that ends a function with an error before the next one runs stands in front of it here
-- as well, so the error of a text with several faults is the source's. A `BTreeMap` is the list of
-- its entries. Iterators over characters and bytes are functions on lists.
--
-- Bounds and fuel. Three functions recurse on fuel. `from_quoted_id` has the length of the token as
-- fuel, and each round takes four characters off; `to_decimal n` has `n + 1`, and each round
-- divides by ten; the lines of `pem` have the length of the text, and each takes a character off at
-- least. None can run out. Every other loop is recursion on its list.
--
-- Parameters. `ed25519_dalek` and `p256` are the record `Crypto`, whose laws (`IsCorrectCrypto`)
-- say that a signature of 64 bytes verifies under its own public half and that keys survive their
-- byte forms. Base64 and JSON are `Base64` and `Json`; their laws say that what was written is
-- read back and which characters Base64 writes. SHA-256 is a function without laws. `rcgen`,
-- `x509_parser` and `time` are the record `X509`, whose laws (`IsX509`) say that a written
-- certificate parses, whole, to what was written into it. The clock, random bytes and the reading
-- of files are arguments. Theorems on acceptance use none of these laws; only theorems on round
-- trips do.
--
-- Not modelled: of crates/conformance the generator, the reading of files and the runs of the
-- other suites, crates/demo and fuzz (demonstrations around the crates above), the HTTP server under crates/issuer and the command-line parser under crates/cli
-- (libraries), and the texts of the error messages other than those that the issuer and the
-- command-line tool write themselves.
pub mod Common
pub mod Text
pub mod Identifier
pub mod Jose
pub mod HttpSig
pub mod Jws
pub mod Wit
pub mod Wpt
pub mod Mtls
pub mod Issuer
pub mod Cli
pub mod Conformance
pub mod Tests
