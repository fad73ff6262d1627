-- ===== src/Lib.antt =====
-- A software modem: the protocols that stand between the terminal's octets and the line's
-- bits.
--
-- The program is a set of Rust crates. softmodem-dsp holds the modulations and the bit-level
-- framing, softmodem-link the error-corrected link of V.42 with the compression of V.42 bis,
-- and the terminal, the transports and the modem itself stand around them. Modelled are the
-- link's protocols and the framing below them, the commands of the terminal, the state machine
-- of the modem, and parts of the transport and V.34. The modem parses the command lines of the
-- computer, keeps the settings, and opens a line for each call; the line puts the link over
-- the data pump. On the way out, V.42 bis compresses the terminal's octets, LAPM puts them
-- into numbered I frames, a frame is written as octets, and HDLC as bits, which the data pump
-- scrambles. On the way in each of these is undone in the opposite order. Before LAPM starts,
-- the two ends look for each other with patterns of start-stop characters, and they exchange
-- XID frames that carry the parameters of LAPM and of V.42 bis.
--
-- The parts, each with the file of the source that it models:
--   Hdlc       softmodem-dsp/src/hdlc.rs: fcs16, push_flag, push_frame and the Deframer. Hdlc/Fcs
--              is about the check sequence, Hdlc/Stuffing about the zero bits, and
--              Hdlc/RoundTrip about both ends.
--   Uart       softmodem-dsp/src/uart.rs: frame and the Decoder with V.14 stop bit deletion.
--   Scrambler  softmodem-dsp/src/scrambler.rs: Polynomial, Scrambler and Descrambler.
--   Detect     softmodem-link/src/detect.rs: push_odp, push_adp and Heard.
--   Frame      softmodem-link/src/frame.rs: the frames of LAPM, Frame::bytes and Frame::parse.
--   Xid        softmodem-link/src/xid.rs: the information field of XID, Xid::bytes and Xid::parse.
--              Xid/ParameterGroup and Xid/PrivateGroup are about its two groups.
--   V42bis     softmodem-link/src/v42bis.rs. V42bis/Parameters and V42bis/Negotiation are
--              Parameters and Directions; V42bis/Dictionary is Dictionary and Matcher;
--              V42bis/BitWriter, V42bis/Encoder and V42bis/Decoder are the types of these names.
--   Lapm       softmodem-link/src/lapm.rs. Lapm/State is the record Lapm, its construction and the
--              small transitions, Lapm/Transmit is next_frame with expire and next_i_frame, and
--              Lapm/Receive is receive with its handlers. Lapm/Invariant and Lapm/Window are about
--              them.
--   Link       softmodem-link/src/lib.rs. Link/State is the record Link with start, status and expire,
--              Link/Codec is set_up_codec, Link/Send is send and transmit, and Link/Receive is
--              receive with detect and hear_lapm. It uses Hdlc, Uart, Detect, V42bis and Lapm, as
--              the source does. Link/Phases is about its phases, Link/Normal about two links without
--              error correction.
--   Terminal   softmodem-terminal/src/escape.rs and line.rs: EscapeDetector in Terminal/Escape,
--              LineEditor in Terminal/Line. command.rs is in Terminal/Command: Parser is the struct
--              of this name with its numbers, Extended the commands after a plus, and Parse the other
--              commands and parse. settings.rs is in Terminal/Settings: Settings with apply, and in
--              Report the result codes.
--   Modem      softmodem/src/modem.rs: header, in Modem/Profile profile, in Modem/Information
--              identify, answer and information, and in Modem/Session the struct Modem. Calls has
--              answer, dial, attach, online, incoming, ring and stop_ringing, Computer has
--              computer_sent and execute, Signals has tick, line_sent and enter_data, and Run the
--              loop of run as a step relation. It uses Terminal and the types it needs of
--              softmodem/src/journal.rs, softmodem-dsp/src/pump.rs and
--              softmodem-transport/src/lib.rs. What it asks of a line is the
--              record LineOps, which its functions take as an argument, and what the clock and the
--              transport answer is the record World. Modem/Line is
--              softmodem/src/line.rs: Handshake, its receive and recover in Receiving, Recovery in
--              Recovering, and Line in Interface, with the LineOps that it makes. It uses Link, and
--              takes the data pump and the tones as the record Signals.
--   Transport  softmodem-transport/src/alaw.rs and reorder.rs: encode and decode in Transport/Alaw,
--              Reorder in Transport/Reorder.
--   V34        softmodem-dsp/src/v34: bits.rs in V34/Bits and V34/Reader, mp.rs in V34/Mp, info.rs
--              and the symbol rates of mod.rs in V34/Info, framing.rs in V34/Frames, and the shell
--              mapper of shell.rs in V34/Shell.
--   Prelude    tests, lists, the laws of the bit operations, and results.
--   Tests      the theorems at concrete inputs.
--
-- An operation on `&mut self` is a function from the state to the state, paired with what it
-- returns. A record has the fields of the source's struct, and a queue or a Vec is a list
-- whose first element is the oldest. Numbers are natural numbers, and an operation that can
-- wrap around in the source has its `% 2 ^ w` written out. A mask of the low bits is a `%` by
-- a power of two, and a shift is a product or a quotient by one. An Instant is a number of
-- time units, and a pair of deadline and time is compared as the source compares them.
--
-- Loops are structural where the source goes over a sequence. The loops over the groups of an
-- XID field have the length of what is left as fuel, since every turn takes an octet at least.
-- In V.42 bis, the loop of BitWriter::put has the number of full octets, the loop of
-- Decoder::decode the number of bits held, since every turn takes some, the STEPUPs before a
-- codeword the 16 bits that a codeword has at most, and Dictionary::recover one turn for each
-- codeword, after which it is back where it began. The walk of Dictionary::string has one step
-- for each codeword, more than a walk to the root has; parents that make a cycle keep the
-- source from returning, and a walk that runs out is a result of its own, on which the decoder
-- stops and the link keeps its phase. The dictionary's arrays are functions of the index, and
-- its hash map is a function of the node and the character. The loop of Link::transmit has the
-- number of bits wanted, since every turn puts a bit at least on the queue. The loops of
-- Reorder have the number of packets held, since every turn lets one go; that map is a list in
-- the order of its keys. The loop of `largest` in shell.rs has the number of terms but one,
-- since the value is below their sum. The loop of parse in command.rs has the length of the
-- text, since every command takes a byte at least, and so has its loop over the rates of +MS.
--
-- The time that two long frames take at a bit rate, which Link::start computes in floating
-- point, is a function that start takes as an argument, and so are the bits that line.rs keeps
-- ahead in the pump, and the rounded eighth root that Framing::new takes for the expanded
-- number of rings.
--
-- Of the modem a failure of the port or of the transport, which ends its loop, is left out,
-- and so are the waits before it dials and before DCD drops; a handler reads the clock once.
-- The instants of modem.rs are in milliseconds, those of line.rs and of Link in nanoseconds.
-- Of line.rs wants_input, which only decides when the computer is read, and the texts for the
-- log are left out.
--
-- Not modelled: the modulations, which are floating-point signal processing; the coding of
-- V.90, and that of V.34 but for the parts named above; the negotiations of V.8 and V.8 bis;
-- the ports of the terminal; SIP, RTP and sound; the journal, the speaker, the panel and the
-- program around them. Logging is left out, since it changes no state, and so are the calls of
-- Link that only read a counter or a parameter.
pub mod Prelude
pub mod Hdlc
pub mod Uart
pub mod Scrambler
pub mod Detect
pub mod Frame
pub mod Xid
pub mod V42bis
pub mod Lapm
pub mod Link
pub mod Terminal
pub mod Modem
pub mod Transport
pub mod V34
pub mod Tests
